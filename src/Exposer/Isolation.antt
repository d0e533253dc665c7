-- ===== src/Exposer/Isolation.antt =====
-- An exposer route is not taken for a route that needs a certificate, and is found by the clean-up.
use openshift_acme.Common.{
  String, ◌≡◌, refl, false, some, [], ◌∷◌, arith, lookup, lookup-insert, eq_iff, Bool-cases, inl,
  inr, eq_refl,
}
use openshift_acme.Kube.{Route}
use openshift_acme.Kube.Key
use openshift_acme.Kube.Managed.{is_managed, is_managed_iff}
use openshift_acme.World.{World}
use openshift_acme.Exposer.{Exposure, desired_route, controller_ref}

module _ (w : World) (route : Route) (e : Exposure) where
  label_temporary : lookup Key.temporary (desired_route w route e).meta.labels ≡ some "true"
  unfolding desired_route
  label_temporary = simp lookup-insert (ground (arith, eq_iff Key.exposer_uid Key.temporary))

  label_uid : lookup Key.exposer_uid (desired_route w route e).meta.labels ≡ some route.meta.uid
  unfolding desired_route
  label_uid = simp lookup-insert (ground (arith, eq_refl Key.exposer_uid))

  annotation_id : lookup Key.exposer_id (desired_route w route e).meta.annotations ≡ some e.id
  unfolding desired_route
  annotation_id = simp lookup-insert (ground (arith, eq_iff Key.exposer_key Key.exposer_id))

  unmanaged : (key : String) → is_managed (desired_route w route e).meta key ≡ false
  unmanaged key = elim (Bool-cases (is_managed (desired_route w route e).meta key)) [
    | inl managed ↦ absurd (((is_managed_iff _ key).0 managed).1 label_temporary)
    | inr free ↦ free
  ]

  one_owner : (desired_route w route e).meta.owner_references ≡ controller_ref route.meta ∷ []
  unfolding desired_route
  one_owner = refl

  -- Whatever the annotations and the labels of the route are, and whatever they ask to filter out,
  -- the exposer route is managed under no annotation, carries the UID label that the clean-up of the
  -- route selects by and the id that it is checked for, and its only owner is the route.
  pub exposer_route_isolated :
      ((key : String) → is_managed (desired_route w route e).meta key ≡ false)
      × (lookup Key.exposer_uid (desired_route w route e).meta.labels ≡ some route.meta.uid)
      × (lookup Key.exposer_id (desired_route w route e).meta.annotations ≡ some e.id)
      × ((desired_route w route e).meta.owner_references ≡ controller_ref route.meta ∷ [])
  exposer_route_isolated = (unmanaged, label_uid, annotation_id, one_owner)
