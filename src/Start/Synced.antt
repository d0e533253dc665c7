-- ===== src/Start/Synced.antt =====
-- The controllers wait for every cache that they read.
use mathlib.Core.Path.{subst}
use openshift_acme.Common.{
  String, true, ◌≡◌, ◌∙◌, refl, some, List, [], ◌∷◌, ◌++◌, Dict, All, Any-append, eq_refl, inl, inr,
  arith,
}
use openshift_acme.Errors.{ok}
use openshift_acme.Informers.{
  namespaces, informers_for, informers_for_or_global, new_informers, contains,
  informers_for-new_informers,
}
use openshift_acme.Informers.Listed.{
  IsIn, AreStarted, lookup-namespaces, namespaces-lookup, or_global-cases, listed-AreStarted,
}
use openshift_acme.Options.{Options, Environment, complete}
use openshift_acme.Options.Namespaces.{watches, complete-IsDistinct}
use openshift_acme.Start.{
  Informer, routes, secrets, services, replica_sets, config_maps, limit_ranges, Setup,
  set_up_routes, set_up_kube, set_up_accounts, join_setups, set_up_all, set_up_some,
  new_route_controller, new_account_controller,
}

module _ {F G I : Type 0} (set_up : I → Setup F G) (i : Dict I) where
  -- The setup waits for the caches of the factories of the namespaces.
  abbrev pub Awaits : List String → Setup F G → Type 0
  Awaits ns s =
      (n : String)
      → IsIn n ns
      → (f : I) → informers_for i n ≡ some f
      → (x : Informer F G) → IsIn x (set_up f).caches_to_sync
      → IsIn x s.caches_to_sync

  -- What the factory of the first namespace or the rest waits for.
  awaited :
      (n : String) (ns : List String) (m : String)
      → IsIn m (n ∷ ns)
      → (f g : I) (rest : Setup F G) → informers_for i n ≡ some f
      → informers_for i m ≡ some g
      → (x : Informer F G) → IsIn x (set_up g).caches_to_sync
      → (IsIn m ns → IsIn x rest.caches_to_sync)
      → IsIn x ((set_up f).caches_to_sync ++ rest.caches_to_sync)
  awaited n ns m p f g rest found e x q later =
      (Any-append (λ y. y ≡ x) (set_up f).caches_to_sync rest.caches_to_sync).1 (elim p [
        | inl here ↦
            let same : g ≡ f = cc (here, found, e) in
            inl (subst (λ k. IsIn x (set_up k).caches_to_sync) same q)
        | inr there ↦ inr (later there)
      ])

  set_up_all-Awaits :
      (ns : List String)
      → ((n : String) → IsIn n ns → (f : I) × (informers_for i n ≡ some f))
      → (s : Setup F G) × (set_up_all set_up i ns ≡ ok s) × Awaits ns s
  unfolding set_up_all
  set_up_all-Awaits [] h = (_, refl, λ n p. absurd p)
  set_up_all-Awaits (n ∷ ns) h =
      let (f, found) = h n (inl refl) in
      let (rest, same, awaits) = set_up_all-Awaits ns (λ m p. h m (inr p)) in
      (
        join_setups (set_up f) rest,
        rw (found, same) refl,
        unfold join_setups in
            λ m p g e x q. awaited n ns m p f g rest found e x q (λ there. awaits m there g e x q),
      )

  set_up_some-Awaits :
      (n : String) (f : I)
      → informers_for i n ≡ some f
      → (s : Setup F G) × (set_up_some set_up i (namespaces i) ≡ ok s) × Awaits (namespaces i) s
  unfolding set_up_some
  set_up_some-Awaits n f h = go (namespaces i) (namespaces-lookup i n f h) (lookup-namespaces i)
    where
      go :
          (ns : List String)
          → IsIn n ns
          → ((n : String) → IsIn n ns → (f : I) × (informers_for i n ≡ some f))
          → (s : Setup F G) × (set_up_some set_up i ns ≡ ok s) × Awaits ns s
      go [] p h = absurd p
      go (m ∷ ms) p h = set_up_all-Awaits (m ∷ ms) h

module _ {F G : Type 0} (make_kube : String → F) (make_route : String → G) {C : Type 0}
    (env : Environment C) (o completed : Options) (completes : complete env o ≡ ok completed) where
  abbrev kube : Dict F
  kube = new_informers make_kube completed.namespaces

  abbrev of_routes : Dict G
  of_routes = new_informers make_route completed.namespaces

  -- Some namespace is watched.
  watched : (n : String) × (contains completed.namespaces n ≡ true)
  watched = go o.namespaces (complete-IsDistinct env o completed completes).1
    where
      go :
          (ns : List String)
          → ((name : String)
              → contains completed.namespaces name ≡ watches ns completed.controller_namespace name)
          → (n : String) × (contains completed.namespaces n ≡ true)
      go [] h = ("", h "" ∙ eq_refl "")
      go (n ∷ ns) h = (n, h n ∙ unfold contains in ground (arith, eq_refl n))

  has_factory :
      {I : Type 0} (make : String → I)
      → informers_for (new_informers make completed.namespaces) watched.0 ≡ some (make watched.0)
  has_factory make =
      informers_for-new_informers make completed.namespaces watched.0 ∙ rw (watched.1) refl

  account_controller_syncs :
      (s : Setup F G) × (new_account_controller {G = G} kube ≡ ok s)
      × ((name : String) (f : F)
          → informers_for_or_global kube name ≡ some f
          → All (λ x. IsIn x s.caches_to_sync) (config_maps f ∷ secrets f ∷ []))
  unfolding new_account_controller set_up_accounts
  account_controller_syncs =
      let (s, made, awaits) =
        set_up_some-Awaits set_up_accounts kube watched.0 _ (has_factory make_kube) in
      (
        s,
        made,
        λ name f h.
            let (n, found) = or_global-cases kube name f h in
            let waits = awaits n (namespaces-lookup kube n f found) f found in
            (waits _ (inl refl), (waits _ (inr (inl refl)), tt)),
      )

  route_controller_syncs :
      (s : Setup F G) × (new_route_controller kube of_routes ≡ ok s)
      × ((name : String) (g : G)
          → informers_for_or_global of_routes name ≡ some g
          → IsIn (routes g) s.caches_to_sync)
      × ((name : String) (f : F)
          → informers_for_or_global kube name ≡ some f
          → All
              (λ x. IsIn x s.caches_to_sync)
              (secrets f ∷ services f ∷ replica_sets f ∷ config_maps f ∷ limit_ranges f ∷ []))
  unfolding new_route_controller set_up_routes set_up_kube join_setups
  route_controller_syncs =
      let (s, made_s, awaits_s) =
        set_up_some-Awaits set_up_routes of_routes watched.0 _ (has_factory make_route) in
      let (t, made_t, awaits_t) =
        set_up_some-Awaits set_up_kube kube watched.0 _ (has_factory make_kube) in
      let in_either =
        λ (x : Informer F G). (Any-append (λ y. y ≡ x) s.caches_to_sync t.caches_to_sync).1 in
      (
        join_setups s t,
        rw (made_s, made_t) refl,
        λ name g h.
            let (n, found) = or_global-cases of_routes name g h in
            in_either (routes g)
              (inl (awaits_s n (namespaces-lookup of_routes n g found) g found _ (inl refl))),
        λ name f h.
            let (n, found) = or_global-cases kube name f h in
            let waits = λ (x : Informer F G) (p : IsIn x (set_up_kube f).caches_to_sync).
              in_either x (inr (awaits_t n (namespaces-lookup kube n f found) f found x p)) in
            (
              waits _ (inl refl),
              (
                waits _ (inr (inl refl)),
                (
                  waits _ (inr (inr (inl refl))),
                  (
                    waits _ (inr (inr (inr (inl refl)))),
                    (waits _ (inr (inr (inr (inr (inl refl))))), tt),
                  ),
                ),
              ),
            ),
      )

  -- With completed options both controllers can be set up, without a panic. In the set-up, the controller
  -- of the routes waits for every cache that a lister for any namespace reads: that of the routes, and
  -- those of the secrets, services, replica sets, ConfigMaps and limit ranges. The controller of the
  -- accounts waits for those of the ConfigMaps and the secrets. The factories that a lister for any
  -- namespace reads are started.
  pub controllers_sync_caches :
      ((s : Setup F G) × (new_route_controller kube of_routes ≡ ok s)
        × ((name : String) (g : G)
            → informers_for_or_global of_routes name ≡ some g
            → IsIn (routes g) s.caches_to_sync)
        × ((name : String) (f : F)
            → informers_for_or_global kube name ≡ some f
            → All
                (λ x. IsIn x s.caches_to_sync)
                (secrets f ∷ services f ∷ replica_sets f ∷ config_maps f ∷ limit_ranges f ∷ [])))
      × ((s : Setup F G) × (new_account_controller {G = G} kube ≡ ok s)
          × ((name : String) (f : F)
              → informers_for_or_global kube name ≡ some f
              → All (λ x. IsIn x s.caches_to_sync) (config_maps f ∷ secrets f ∷ [])))
      × AreStarted of_routes
      × AreStarted kube
  controllers_sync_caches = (
    route_controller_syncs,
    account_controller_syncs,
    listed-AreStarted of_routes,
    listed-AreStarted kube,
  )
