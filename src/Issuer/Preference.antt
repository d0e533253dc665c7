-- ===== src/Issuer/Preference.antt =====
-- The order of preference among issuers.
use openshift_acme.Common.{◌≡◌, true, ◌↔◌, ◌⊎◌, arith, ◌<ℤ◌}
use openshift_acme.Kube.{ConfigMap}
use openshift_acme.Issuer.{priority, less}

-- Two issuers each come before the other exactly when one of them has both the lower priority and the
-- earlier creation.
pub less_both_iff :
    (a b : ConfigMap)
    → ((less a b ≡ true) × (less b a ≡ true)) ↔ (
        ((priority a <ℤ priority b) × (a.meta.creation_timestamp <ℤ b.meta.creation_timestamp))
        ⊎ ((priority b <ℤ priority a) × (b.meta.creation_timestamp <ℤ a.meta.creation_timestamp)))
unfolding less
less_both_iff a b = ground arith
