-- ===== src/Renewal/Schedule.antt =====
-- When `needsCertKey` asks for a renewal, and the delay after which it is called again.
use openshift_acme.Common.{
  String, ◌≡◌, ap, sym, ◌∙◌, ◌≢◌, ◌↔◌, arith, true, ℤ, pos, negsuc, ◌≤ℤ◌, ◌<ℤ◌, ◌-ℤ◌, ◌+ℤ◌, quot,
  int_laws, -ℤ_parts,
}
use openshift_acme.Kube.{Time, Duration}
use openshift_acme.Cert.{Certificate, X509, is_valid}
use openshift_acme.Renewal.{
  proactive_renewal_threshold, needs_renewal, time_sub, max_duration, no_reason,
}
use openshift_acme.Renewal.Threshold.{third-le-threshold}

time_sub_exact : (t u : Time) → u ≤ℤ t → t -ℤ u ≤ℤ max_duration → time_sub t u ≡ t -ℤ u
unfolding time_sub
time_sub_exact t u h k = ground (arith, -ℤ_parts t u)

abbrev lifetime : Certificate → Duration
lifetime c = c.not_after -ℤ c.not_before

quot_nonneg : (a : ℤ) → pos 0 ≤ℤ a → pos 0 ≤ℤ quot a 3
unfolding quot
quot_nonneg (pos n) h = omega arith
quot_nonneg (negsuc n) h = absurd (omega arith)

is_valid_of :
    (c : Certificate) (t : Time) → c.not_before ≤ℤ t → t ≤ℤ c.not_after → is_valid c t ≡ true
unfolding is_valid
is_valid_of c t h k = ground arith

module _ (x : X509) (host : String) (c : Certificate) where
  abbrev threshold : Duration
  threshold = proactive_renewal_threshold x c (lifetime c)

  healthy_iff :
      (t : Time)
      → x.verify_hostname c host ≡ true
      → c.not_before ≤ℤ c.not_after
      → lifetime c ≤ℤ max_duration
      → ((needs_renewal x t host c).0 ≡ no_reason)
        ↔ ((c.not_before ≤ℤ t) × (t <ℤ c.not_after -ℤ threshold))
  unfolding needs_renewal is_valid
  healthy_iff t hostname forward short =
      let third = third-le-threshold x c (lifetime c) in
      let born = quot_nonneg (lifetime c) (omega (int_laws, forward)) in
      (
        λ h. ground (
          arith,
          -ℤ_parts c.not_after t,
          -ℤ_parts c.not_after threshold,
          -ℤ_parts c.not_after c.not_before,
          third-le-threshold x c (lifetime c),
          quot_nonneg (lifetime c),
          time_sub_exact c.not_after t,
          time_sub_exact c.not_after c.not_before,
        ),
        λ h.
            rw
              (
                hostname,
                is_valid_of c t h.0 (omega (int_laws, third, born, h.1)),
                time_sub_exact c.not_after t (omega (int_laws, third, born, h.1))
                    (omega (int_laws, third, born, h.0, h.1, short)),
                time_sub_exact c.not_after c.not_before forward short,
              )
              (ground (
                arith,
                -ℤ_parts c.not_after t,
                -ℤ_parts c.not_after threshold,
                third-le-threshold x c (lifetime c),
                h.1,
              )),
      )

  -- The delay beside a healthy certificate is the time that is left until the threshold.
  healthy_delay :
      (t : Time)
      → lifetime c ≤ℤ max_duration
      → (needs_renewal x t host c).0 ≡ no_reason
      → (needs_renewal x t host c).1 ≡ c.not_after -ℤ t -ℤ threshold
  unfolding needs_renewal is_valid
  healthy_delay t short h = ground (
    arith,
    time_sub_exact c.not_after t,
    time_sub_exact c.not_after c.not_before,
    -ℤ_parts c.not_after t,
    -ℤ_parts c.not_after c.not_before,
  )

  -- Take a certificate that matches the host and whose validity period lasts at most 292 years. If the
  -- checks of `needsCertKey` on it find no reason to renew at a time, then the delay that they
  -- return is positive, they find no reason at any later time before the delay is over, and they
  -- find a reason at every time from the end of the delay on.
  pub requeue_is_exact :
      (t : Time) {d : Duration}
      → x.verify_hostname c host ≡ true
      → c.not_before ≤ℤ c.not_after
      → lifetime c ≤ℤ max_duration
      → needs_renewal x t host c ≡ (no_reason, d)
      → (pos 0 <ℤ d)
        × ((s : Time) → t ≤ℤ s → s <ℤ t +ℤ d → (needs_renewal x s host c).0 ≡ no_reason)
        × ((s : Time) → t +ℤ d ≤ℤ s → (needs_renewal x s host c).0 ≢ no_reason)
  requeue_is_exact t {d} hostname forward short e =
      let now = (healthy_iff t hostname forward short).0 (ap (λ p. p.0) e) in
      let delay : d ≡ c.not_after -ℤ t -ℤ threshold =
        sym (ap (λ p. p.1) e) ∙ healthy_delay t short (ap (λ p. p.0) e) in
      rw delay (
        omega (int_laws, now),
        λ s after before.
            (healthy_iff s hostname forward short).1
              (omega (int_laws, now, after), omega (int_laws, now, after, before)),
        λ s late healthy.
            let due = (healthy_iff s hostname forward short).0 healthy in
            absurd (omega (int_laws, late, due)),
      )
