-- ===== src/Issuer/Candidates.antt =====
-- Where the issuer of an object comes from.
use mathlib.Core.Path.{subst}
use openshift_acme.Common.{
  String, Bool, ◌≡◌, refl, false, Option, none, some, List, [], ◌∷◌, ◌++◌, ◌⊎◌, inl, inr, All,
  All-append, All-members, Any, Bool-cases, is_empty, lookup,
}
use openshift_acme.Errors.{
  ok, require, continue_with-ok, require-ok, ok-injective, missing_issuer_data, invalid_issuer_data,
}
use openshift_acme.Kube.{ConfigMap, Secret, ObjectMeta}
use openshift_acme.Kube.Key
use openshift_acme.Issuer.{
  CertIssuer, IssuerCaches, less, issuer_config_maps, named_issuers, any_issuers, sorted_issuers,
  issuer_of, issuer_for_object,
}

-- `sort.Slice` only moves the items.
abbrev pub SortsOnly : IssuerCaches → Type 1
SortsOnly caches =
    (P : ConfigMap → Type 0) (before : ConfigMap → ConfigMap → Bool) (cms : List ConfigMap)
    → All P cms
    → All P (caches.sort_slice before cms)

module _ (caches : IssuerCaches) (global : String) (obj : ObjectMeta) where
  -- The ConfigMap that the object names, from its own namespace.
  abbrev pub IsNamed : ConfigMap → Type 0
  IsNamed cm =
      (name : String) × (lookup Key.cert_issuer_name obj.annotations ≡ some name)
      × (is_empty name ≡ false)
      × (caches.config_map obj.namespace name ≡ ok cm)

  -- One of the ConfigMaps with the labels of an issuer in a namespace.
  abbrev pub IsListed : String → ConfigMap → Type 0
  IsListed namespace cm =
      (found : List ConfigMap) × (caches.labelled namespace ≡ ok found) × Any (λ c. c ≡ cm) found

  abbrev pub IsCandidate : ConfigMap → Type 0
  IsCandidate cm = IsNamed cm ⊎ (IsListed obj.namespace cm ⊎ IsListed global cm)

  -- The issuer and the secret that a ConfigMap gives.
  abbrev pub Gives : ConfigMap → CertIssuer → Secret → Type 0
  Gives cm issuer s =
      (text : String) × (lookup Key.cert_issuer_data cm.contents ≡ some text)
      × (caches.decode_issuer text ≡ some issuer)
      × (is_empty issuer.secret_name ≡ false)
      × (caches.secret cm.meta.namespace issuer.secret_name ≡ ok s)

  sorted_candidates :
      SortsOnly caches
      → (cms out : List ConfigMap) → All IsCandidate cms
      → sorted_issuers caches global cms ≡ ok out
      → All IsCandidate out
  unfolding sorted_issuers
  sorted_candidates sorts [] out h e = cc
  sorted_candidates sorts (cm ∷ cms) out h e =
      subst (All IsCandidate) (ok-injective e) (sorts IsCandidate less (cm ∷ cms) h)

  any_candidates :
      SortsOnly caches
      → (out : List ConfigMap) → any_issuers caches global obj ≡ ok out
      → All IsCandidate out
  unfolding any_issuers
  any_candidates sorts out e =
      let (local, here, e') = continue_with-ok (caches.labelled obj.namespace) _ _ e in
      let (everywhere, there, e'') = continue_with-ok (caches.labelled global) _ _ e' in
      sorted_candidates sorts (local ++ everywhere) out
        (All-append IsCandidate local everywhere
          (All-members IsCandidate local (λ cm m. inr (inl (local, here, m))))
          (All-members IsCandidate everywhere (λ cm m. inr (inr (everywhere, there, m)))))
        e''

  named_candidates :
      SortsOnly caches
      → (name : Option String) (out : List ConfigMap)
      → lookup Key.cert_issuer_name obj.annotations ≡ name
      → named_issuers caches global obj name ≡ ok out
      → All IsCandidate out
  unfolding named_issuers
  named_candidates sorts none out e h = any_candidates sorts out h
  named_candidates sorts (some name) out e h = elim (Bool-cases (is_empty name)) [
    | inl empty ↦ any_candidates sorts out (rw empty at h)
    | inr named ↦
        let (cm, found, done) =
          continue_with-ok (caches.config_map obj.namespace name) _ _ (rw named at h) in
        rw (← ok-injective done) (inl (name, e, named, found), tt)
  ]

  issuer_given :
      (cms : List ConfigMap) (issuer : CertIssuer) (s : Secret)
      → All IsCandidate cms
      → issuer_of caches global cms ≡ ok (issuer, s)
      → (cm : ConfigMap) × IsCandidate cm × Gives cm issuer s
  unfolding issuer_of
  issuer_given [] issuer s h e = cc
  issuer_given (cm ∷ cms) issuer s h e =
      let (text, e1, e') =
        continue_with-ok (require (lookup Key.cert_issuer_data cm.contents) missing_issuer_data) _ _
          e in
      let (decoded, e2, e'') =
        continue_with-ok (require (caches.decode_issuer text) invalid_issuer_data) _ _ e' in
      elim (Bool-cases (is_empty decoded.secret_name)) [
        | inl empty ↦ (let h' = rw empty at e'' in cc)
        | inr named ↦
            let (t, e3, done) =
              continue_with-ok (caches.secret cm.meta.namespace decoded.secret_name) _ _
                (rw named at e'') in
            let same = ok-injective done in
            (
              cm,
              h.0,
              subst (λ p. Gives cm p.0 p.1) same
                  (text, require-ok _ _ _ e1, require-ok _ _ _ e2, named, e3),
            )
      ]

  -- The issuer and the secret that an object is served by come from a ConfigMap that the object names
  -- in its own namespace, or that has the labels of an issuer in that namespace or in the global one;
  -- it is what the ConfigMap's data decode to, with the secret of that name from the namespace of
  -- the ConfigMap. Assumed is that sort.Slice only moves items.
  pub issuer_origin :
      (issuer : CertIssuer) (s : Secret)
      → SortsOnly caches
      → issuer_for_object caches global obj ≡ ok (issuer, s)
      → (cm : ConfigMap) × IsCandidate cm × Gives cm issuer s
  unfolding issuer_for_object issuer_config_maps
  issuer_origin issuer s sorts e =
      let (cms, found, e') = continue_with-ok (issuer_config_maps caches global obj) _ _ e in
      issuer_given cms issuer s (named_candidates sorts _ cms refl found) e'
