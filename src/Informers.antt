-- ===== src/Informers.antt =====
-- pkg/machinery/informers/route/informers.go and pkg/machinery/informers/kube/informers.go: one
-- informer factory for each namespace. A factory is what `make` gives for the namespace.
pub mod Listed
use openshift_acme.Common.{
  String, Bool, false, true, ◌||◌, ◌≡◌, refl, Option, none, some, List, [], ◌∷◌, Dict, lookup,
  insert, lookup-insert, str_eq, eq_iff, if◌then◌else◌, arith, ◌∙◌,
}

unfoldable pub contains : List String → String → Bool
contains [] name = false
contains (n ∷ ns) name = str_eq n name || contains ns name

module _ {F : Type 0} where
  -- The loop of `NewRouteInformersForNamespaces` and `NewKubeInformersForNamespaces`.
  unfoldable pub add_factories : (String → F) → List String → Dict F → Dict F
  add_factories make [] res = res
  add_factories make (n ∷ ns) res = add_factories make ns (insert n (make n) res)

  unfoldable pub new_informers : (String → F) → List String → Dict F
  unfolding add_factories
  new_informers make ns = add_factories make ns []

  -- `Namespaces`; the order of a range over a map is left open.
  unfoldable pub namespaces : Dict F → List String
  namespaces [] = []
  namespaces ((n, factory) ∷ i) = n ∷ namespaces i

  -- `Start`: the factories that are started.
  unfoldable pub start_all : Dict F → List F
  start_all [] = []
  start_all ((n, factory) ∷ i) = factory ∷ start_all i

  unfoldable pub informers_for : Dict F → String → Option F
  informers_for i namespace = lookup namespace i

  unfoldable pub or_global : Dict F → Option F → Option F
  or_global i none = lookup "" i
  or_global i (some factory) = some factory

  unfoldable pub informers_for_or_global : Dict F → String → Option F
  unfolding or_global
  informers_for_or_global i namespace = or_global i (lookup namespace i)

  is_some : Option F → Bool
  is_some none = false
  is_some (some f) = true

  unfoldable pub has_informers_for : Dict F → String → Bool
  unfolding is_some
  has_informers_for i namespace = is_some (informers_for i namespace)

  lookup-add_factories :
      (make : String → F) (ns : List String) (res : Dict F) (name : String)
      → lookup name (add_factories make ns res)
        ≡ (if contains ns name then some (make name) else lookup name res)
  unfolding add_factories contains
  lookup-add_factories make [] res name = refl
  lookup-add_factories make (n ∷ ns) res name =
      lookup-add_factories make ns (insert n (make n) res) name
      ∙ ground (arith, lookup-insert n name (make n) res, eq_iff n name)

  pub informers_for-new_informers :
      (make : String → F) (ns : List String) (name : String)
      → informers_for (new_informers make ns) name
        ≡ (if contains ns name then some (make name) else none)
  unfolding informers_for new_informers lookup
  informers_for-new_informers make ns name = lookup-add_factories make ns [] name

  pub or_global-new_informers :
      (make : String → F) (ns : List String) (name : String)
      → informers_for_or_global (new_informers make ns) name ≡ (
          if contains ns name
          then some (make name)
          else if contains ns ""
          then some (make "")
          else none)
  unfolding informers_for_or_global informers_for
  or_global-new_informers make ns name =
      ground
        (arith, informers_for-new_informers make ns name, informers_for-new_informers make ns "")
