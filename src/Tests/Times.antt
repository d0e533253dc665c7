-- ===== src/Tests/Times.antt =====
-- Renewal times of a certificate of 90 days, and delays.
use openshift_acme.Common.{
  ℕ, ◌*◌, ◌≡◌, ◌≢◌, refl, true, none, [], ◌∷◌, pos, quot, ◌≤ℤ◌, ◌<ℤ◌, ◌+ℤ◌, ◌-ℤ◌, arith,
}
use openshift_acme.Kube.{Time, Duration}
use openshift_acme.Cert.{Certificate, X509, is_valid}
use openshift_acme.Renewal.{
  proactive_renewal_threshold, big_endian_uint64, needs_renewal, no_reason, time_sub,
}
use openshift_acme.Renewal.Threshold.{threshold_in_window}
use openshift_acme.Renewal.Schedule.{requeue_is_exact}

abbrev day : ℕ
day = 86_400 * 1_000_000_000

abbrev x509 : X509
x509 = record {
  pem_decode = λ _. none;
  pem_encode = λ type block. type;
  parse_certificate = λ _. none;
  marshal_key = λ k. k;
  verify_hostname = λ _ _. true;
  sum256 = λ _. 0 ∷ 1 ∷ 0 ∷ 0 ∷ 0 ∷ 0 ∷ 0 ∷ 5 ∷ 9 ∷ [];
}

abbrev leaf : Certificate
leaf = record { not_before = pos 0; not_after = pos (90 * day); raw = [] }

threshold_in_window_example :
    (quot (pos (90 * day)) 3 ≤ℤ proactive_renewal_threshold x509 leaf (pos (90 * day)))
    × (proactive_renewal_threshold x509 leaf (pos (90 * day)) <ℤ quot (pos (90 * day)) 2)
threshold_in_window_example = threshold_in_window x509 leaf (pos (90 * day)) (omega arith)

abbrev delay : Duration
delay = pos 4_902_525_023_289_339

healthy_at_first : needs_renewal x509 (pos 0) "shop.example" leaf ≡ (no_reason, delay)
unfolding needs_renewal is_valid time_sub proactive_renewal_threshold big_endian_uint64 quot ◌-ℤ◌
    ◌+ℤ◌
healthy_at_first = refl

requeue_is_exact_example :
    (pos 0 <ℤ delay)
    × ((s : Time)
        → pos 0 ≤ℤ s
        → s <ℤ pos 0 +ℤ delay
        → (needs_renewal x509 s "shop.example" leaf).0 ≡ no_reason)
    × ((s : Time) → pos 0 +ℤ delay ≤ℤ s → (needs_renewal x509 s "shop.example" leaf).0 ≢ no_reason)
unfolding ◌-ℤ◌
requeue_is_exact_example =
    requeue_is_exact x509 "shop.example" leaf (pos 0) refl (omega arith) (omega arith)
      healthy_at_first
