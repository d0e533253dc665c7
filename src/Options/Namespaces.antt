-- ===== src/Options/Namespaces.antt =====
-- The namespaces that a controller watches.
use mathlib.Core.Path.{subst}
use openshift_acme.Common.{
  is_empty, none, String, Bool, true, false, ◌||◌, ◌&&◌, not, ◌≡◌, ◌∙◌, refl, some, List, [], ◌∷◌,
  ◌++◌, str_eq, eq_iff, eq_refl, if◌then◌else◌, arith, Bool-cases, inl, inr,
}
use openshift_acme.Errors.{ok, continue_with-ok, ok-injective}
use openshift_acme.Informers.{
  contains, new_informers, informers_for_or_global, or_global-new_informers,
}
use openshift_acme.Options.{Options, Environment, unique, complete_namespaces, complete}

contains-unique :
    (seen ns : List String) (name : String)
    → contains (unique seen ns) name ≡ (contains ns name && not (contains seen name))
unfolding contains unique
contains-unique seen [] name = refl
contains-unique seen (n ∷ ns) name =
    ground (arith, contains-unique seen ns name, contains-unique (n ∷ seen) ns name, eq_iff n name)

-- No name stands in the list twice.
abbrev pub IsDistinct : List String → Type 0
IsDistinct [] = Unit
IsDistinct (n ∷ ns) = (contains ns n ≡ false) × IsDistinct ns

unique-IsDistinct : (seen ns : List String) → IsDistinct (unique seen ns)
unfolding unique contains
unique-IsDistinct seen [] = tt
unique-IsDistinct seen (n ∷ ns) = elim (Bool-cases (contains seen n)) [
  | inl again ↦ rw again (unique-IsDistinct seen ns)
  | inr new ↦
      rw new (
        ground (arith, contains-unique (n ∷ seen) ns n, eq_refl n),
        unique-IsDistinct (n ∷ seen) ns,
      )
]

contains-append :
    (ns ms : List String) (name : String)
    → contains (ns ++ ms) name ≡ (contains ns name || contains ms name)
unfolding contains
contains-append [] ms name = refl
contains-append (n ∷ ns) ms name = ground (arith, contains-append ns ms name)

contains-complete_namespaces :
    (controller n : String) (ns : List String) (name : String)
    → contains (complete_namespaces controller (n ∷ ns)) name
      ≡ (contains (n ∷ ns) name || str_eq controller name)
unfolding complete_namespaces
contains-complete_namespaces controller n ns name =
    contains-unique [] ((n ∷ ns) ++ controller ∷ []) name
    ∙ unfold contains in ground (arith, contains-append (n ∷ ns) (controller ∷ []) name)

complete_namespaces-IsDistinct :
    (controller : String) (ns : List String) → IsDistinct (complete_namespaces controller ns)
unfolding complete_namespaces contains
complete_namespaces-IsDistinct controller [] = (refl, tt)
complete_namespaces-IsDistinct controller (n ∷ ns) = unique-IsDistinct [] _

abbrev pub is_nil : List String → Bool
is_nil [] = true
is_nil (n ∷ ns) = false

-- What a list of namespaces names after the completion.
abbrev pub watches : List String → String → String → Bool
watches ns controller name =
    if is_nil ns then str_eq "" name else contains ns name || str_eq controller name

complete_namespaces-watches :
    (controller : String) (ns : List String) (name : String)
    → contains (complete_namespaces controller ns) name ≡ watches ns controller name
complete_namespaces-watches controller [] name = unfold contains complete_namespaces in ground arith
complete_namespaces-watches controller (n ∷ ns) name =
    contains-complete_namespaces controller n ns name

module _ {C : Type 0} (env : Environment C) (o : Options) (completed : Options) where
  completed_namespaces :
      complete env o ≡ ok completed
      → completed.namespaces ≡ complete_namespaces completed.controller_namespace o.namespaces
  unfolding complete
  completed_namespaces e =
      let (config, _, e1) =
        continue_with-ok
          (if not (is_empty o.kubeconfig)
            then env.load_config o.kubeconfig
            else env.in_cluster_config)
          _ _ e in
      let (controller, _, e2) =
        continue_with-ok
          (if is_empty o.controller_namespace
            then env.read_file "/var/run/secrets/kubernetes.io/serviceaccount/namespace"
            else ok o.controller_namespace)
          _ _ e1 in
      let (_, _, e3) = continue_with-ok (env.new_kube_client config) _ _ e2 in
      let (_, _, e4) = continue_with-ok (env.new_route_client config) _ _ e3 in
      subst (λ c. c.namespaces ≡ complete_namespaces c.controller_namespace o.namespaces)
        (ok-injective e4) refl

  -- Completed options name each namespace once: those that were given and the namespace of the
  -- controller, or only the empty one, which stands for all, if none was given.
  pub complete-IsDistinct :
      complete env o ≡ ok completed
      → IsDistinct completed.namespaces
        × ((name : String)
            → contains completed.namespaces name
              ≡ watches o.namespaces completed.controller_namespace name)
  complete-IsDistinct e = rw (completed_namespaces e) (
    complete_namespaces-IsDistinct completed.controller_namespace o.namespaces,
    complete_namespaces-watches completed.controller_namespace o.namespaces,
  )

  -- With completed options the informer factory for a namespace is its own if the namespace was given
  -- or is that of the controller; else it is the one for all namespaces, if none was given or the
  -- empty one was; else there is none.
  pub complete_covers :
      {F : Type 0} (make : String → F) (name : String)
      → complete env o ≡ ok completed
      → informers_for_or_global (new_informers make completed.namespaces) name ≡ (
          if watches o.namespaces completed.controller_namespace name
          then some (make name)
          else if watches o.namespaces completed.controller_namespace ""
          then some (make "")
          else none)
  complete_covers make name e =
      or_global-new_informers make completed.namespaces name
      ∙ rw
          (
            completed_namespaces e,
            complete_namespaces-watches completed.controller_namespace o.namespaces name,
            complete_namespaces-watches completed.controller_namespace o.namespaces "",
          )
          refl
