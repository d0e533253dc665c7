-- ===== src/Renewal/Threshold.antt =====
-- The window of `proactiveRenewalThreshold`.
use openshift_acme.Common.{
  arith, pos, negsuc, ◌≤ℤ◌, ◌<ℤ◌, ◌-ℤ◌, ◌+ℤ◌, quot, int_laws, leb_ℤ, Bool-cases, inl, inr,
}
use openshift_acme.Kube.{Duration}
use openshift_acme.Cert.{Certificate, X509}
use openshift_acme.Renewal.{proactive_renewal_threshold}

module _ (x : X509) (c : Certificate) where
  pub third-le-threshold :
      (lifetime : Duration) → quot lifetime 3 ≤ℤ proactive_renewal_threshold x c lifetime
  unfolding proactive_renewal_threshold
  third-le-threshold lifetime =
      elim (Bool-cases (leb_ℤ (quot lifetime 2 -ℤ quot lifetime 3) (pos 0))) [
        | inl e ↦ rw e (omega arith)
        | inr e ↦ rw e (omega int_laws)
      ]

  threshold-lt-half :
      (lifetime : Duration)
      → pos 4 ≤ℤ lifetime
      → proactive_renewal_threshold x c lifetime <ℤ quot lifetime 2
  unfolding proactive_renewal_threshold quot ◌+ℤ◌ ◌-ℤ◌
  threshold-lt-half (pos n) h = ground arith
  threshold-lt-half (negsuc n) h = absurd (omega arith)

  -- For a lifetime of at least 4 ns the threshold is at least a third of the lifetime and less than
  -- half of it, whatever the certificate's hash is.
  pub threshold_in_window :
      (lifetime : Duration)
      → pos 4 ≤ℤ lifetime
      → (quot lifetime 3 ≤ℤ proactive_renewal_threshold x c lifetime)
        × (proactive_renewal_threshold x c lifetime <ℤ quot lifetime 2)
  threshold_in_window lifetime h = (third-le-threshold lifetime, threshold-lt-half lifetime h)
