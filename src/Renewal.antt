-- ===== src/Renewal.antt =====
-- pkg/controller/route/route.go: when a route needs a new certificate, and when to look again.
pub mod Threshold
pub mod Schedule
use openshift_acme.Common.{
  ℕ, ◌+◌, ◌*◌, ◌^◌, ◌%◌, ◌-◌, String, ◌||◌, not, Option, none, some, [], ◌∷◌, if◌then◌else◌, pos,
  negsuc, pos_part, ◌+ℤ◌, ◌-ℤ◌, quot, leb_ℤ, ltb_ℤ, is_empty, take,
}
use openshift_acme.Errors.{Result, ok, ◌>>=◌}
use openshift_acme.Kube.{Time, Duration, Bytes, Route, TlsConfig}
use openshift_acme.Cert.{Certificate, X509, certificate, is_valid}

-- The longest and the shortest duration of Go, which is an int64.
abbrev pub max_duration : Duration
max_duration = pos (2 ^ 63 - 1)

abbrev pub min_duration : Duration
min_duration = negsuc (2 ^ 63 - 1)

-- `t.Sub(u)`, which saturates.
unfoldable pub time_sub : Time → Time → Duration
time_sub t u =
    let d = t -ℤ u in
    if ltb_ℤ max_duration d then max_duration else if ltb_ℤ d min_duration then min_duration else d

-- `binary.BigEndian.Uint64`
uint64_from : ℕ → Bytes → ℕ
uint64_from acc [] = acc
uint64_from acc (b ∷ bs) = uint64_from (acc * 256 + b) bs

unfoldable pub big_endian_uint64 : Bytes → ℕ
unfolding uint64_from
big_endian_uint64 bs = uint64_from 0 (take 8 bs)

module _ (x : X509) where
  unfoldable pub proactive_renewal_threshold : Certificate → Duration → Duration
  proactive_renewal_threshold c lifetime =
      let window = quot lifetime 2 -ℤ quot lifetime 3 in
      if leb_ℤ window (pos 0)
      then quot lifetime 3
      else quot lifetime 3 +ℤ pos (big_endian_uint64 (x.sum256 c.raw) % pos_part window)

-- The reasons of `needsCertKey`; `no_reason` is the empty text.
pub data Reason : Type 0 where
  no_reason missing_cert_key hostname_mismatch already_expired renewal_period proactive_renewal :
      Reason

module _ (x : X509) where
  -- The checks of a decoded certificate, from `VerifyHostname` on.
  unfoldable pub needs_renewal : Time → String → Certificate → Reason × Duration
  needs_renewal t host c =
      if not (x.verify_hostname c host)
      then (hostname_mismatch, pos 0)
      else if not (is_valid c t)
      then (already_expired, pos 0)
      else let remains = time_sub c.not_after t in
        let lifetime = time_sub c.not_after c.not_before in
        let threshold = proactive_renewal_threshold x c lifetime in
        if leb_ℤ remains (quot lifetime 3)
        then (renewal_period, pos 0)
        else if leb_ℤ remains threshold
        then (proactive_renewal, pos 0)
        else (no_reason, remains -ℤ threshold)

  needs_cert_key_tls : Time → String → Option TlsConfig → Result (Reason × Duration)
  unfolding needs_renewal
  needs_cert_key_tls t host none = ok (missing_cert_key, pos 0)
  needs_cert_key_tls t host (some tls) =
      if is_empty tls.key || is_empty tls.certificate then ok (missing_cert_key, pos 0) else do
        c ← certificate x (record { key = tls.key; crt = tls.certificate })
        ok (needs_renewal t host c)

  unfoldable pub needs_cert_key : Time → Route → Result (Reason × Duration)
  unfolding needs_cert_key_tls
  needs_cert_key t route = needs_cert_key_tls t route.host route.tls
