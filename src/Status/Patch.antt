-- ===== src/Status/Patch.antt =====
-- When `updateStatus` writes, and what it leaves in the annotation.
use openshift_acme.Common.{
  String, ◌≡◌, ◌≢◌, inl, inr, some, [], ◌∷◌, lookup, insert, dict_eq, dict_eq-insert, Bool-cases,
}
use openshift_acme.Errors.{Result, ok}
use openshift_acme.Kube.{Route}
use openshift_acme.Kube.Key
use openshift_acme.Effects.{patch_status, ◌>>=◌}
use openshift_acme.Status.{Status, StatusCodec, set_status, update_status}

module _ (codec : StatusCodec) (reply : String → Result (Unit {0})) (route : Route)
    (status : Status) where
  abbrev observed : Status
  observed = record status { observed_generation = route.meta.generation }

  update_status-unchanged :
      (text : String)
      → codec.encode_yaml observed ≡ some text
      → lookup Key.status route.meta.annotations ≡ some text
      → update_status codec reply route status ≡ ([], ok tt)
  unfolding update_status set_status ◌>>=◌
  update_status-unchanged text e h =
      rw (e, (dict_eq-insert Key.status text route.meta.annotations).1 h)

  update_status-changed :
      (text json : String)
      → codec.encode_yaml observed ≡ some text
      → codec.encode_json observed ≡ some json
      → lookup Key.status route.meta.annotations ≢ some text
      → update_status codec reply route status
        ≡ (patch_status route.meta.namespace route.meta.name json ∷ [], reply json)
  unfolding update_status set_status ◌>>=◌
  update_status-changed text json e f h =
      elim (Bool-cases
        (dict_eq (insert Key.status text route.meta.annotations) route.meta.annotations)) [
          | inl same ↦ absurd (h ((dict_eq-insert Key.status text route.meta.annotations).0 same))
          | inr differs ↦ rw (e, differs, f)
        ]

  -- The annotation of the route is compared with the YAML text of the status, in which the observed
  -- generation is that of the route. If it is that text then nothing is written and the update
  -- succeeds. If it is not, then the update is one patch with the JSON text, with the API server's
  -- reply.
  pub update_status_lem :
      (text json : String)
      → codec.encode_yaml observed ≡ some text
      → codec.encode_json observed ≡ some json
      → (lookup Key.status route.meta.annotations ≡ some text
          → update_status codec reply route status ≡ ([], ok tt))
        × (lookup Key.status route.meta.annotations ≢ some text
            → update_status codec reply route status
              ≡ (patch_status route.meta.namespace route.meta.name json ∷ [], reply json))
  update_status_lem text json e f =
      (update_status-unchanged text e, update_status-changed text json e f)
