-- ===== src/Status/Stored.antt =====
-- Status: what was written to the annotation is read back.
use openshift_acme.Common.{String, ◌≡◌, refl, sym, ap, Option, none, some, insert, lookup-insert}
use openshift_acme.Errors.{ok, ok-injective}
use openshift_acme.Kube.{Route, ObjectMeta}
use openshift_acme.Kube.Key
use openshift_acme.Status.{Status, StatusCodec, encoded_meta, get_status, set_status}

-- The status with the generation of the object as the one that was observed.
abbrev pub observed : ObjectMeta → Status → Status
observed obj status = record status { observed_generation = obj.generation }

module _ (writer reader : StatusCodec) (obj : ObjectMeta) (status : Status)
    (reads : (text : String)
      → writer.encode_yaml (observed obj status) ≡ some text
      → reader.decode text ≡ some (observed obj status)) where
  annotated :
      (o : Option String) {m : ObjectMeta × Status}
      → writer.encode_yaml (observed obj status) ≡ o
      → encoded_meta o obj (observed obj status) ≡ ok m
      → (route : Route) → route.meta ≡ m.0
      → get_status reader route ≡ ok (observed obj status)
  unfolding encoded_meta get_status
  annotated none e h route same = cc
  annotated (some text) {m} e h route same =
      let is_meta : m.0 ≡ record obj { annotations = insert Key.status text obj.annotations } =
        ap (λ (p : ObjectMeta × Status). p.0) (sym (ok-injective h)) in
      rw (same, is_meta, lookup-insert Key.status Key.status text obj.annotations, reads text e)
        refl

  -- A status that was set on the metadata of a route is read from the route, with the generation of the
  -- metadata as the one that was observed. Assumed is that the reader decodes the YAML text that the
  -- writer has encoded for it.
  pub get_status-set_status :
      (m : ObjectMeta × Status) (route : Route)
      → set_status writer obj status ≡ ok m
      → route.meta ≡ m.0
      → get_status reader route ≡ ok (observed obj status)
  unfolding set_status
  get_status-set_status m route h same = annotated _ refl h route same
