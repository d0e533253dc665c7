-- ===== src/Acme/Same.antt =====
-- Acme: statuses that compare as equal are equal.
use openshift_acme.Common.{ℕ, String, ◌≡◌, ◌∙◌, refl, sym, true, ◌==◌, eq_iff, arith, if◌then◌else◌}
use openshift_acme.Acme.{
  AcmeStatus, none_yet, pending, processing, ready, valid, invalid, expired, revoked, deactivated,
  unknown, tag, detail, same_status,
}

of_tag : ℕ → String → AcmeStatus
of_tag n s =
    if n == 0
    then none_yet
    else if n == 1
    then pending
    else if n == 2
    then processing
    else if n == 3
    then ready
    else if n == 4
    then valid
    else if n == 5
    then invalid
    else if n == 6
    then expired
    else if n == 7
    then revoked
    else if n == 8
    then deactivated
    else unknown s

of_tag-tag : (a : AcmeStatus) → of_tag (tag a) (detail a) ≡ a
unfolding of_tag tag detail
of_tag-tag none_yet = refl
of_tag-tag pending = refl
of_tag-tag processing = refl
of_tag-tag ready = refl
of_tag-tag valid = refl
of_tag-tag invalid = refl
of_tag-tag expired = refl
of_tag-tag revoked = refl
of_tag-tag deactivated = refl
of_tag-tag (unknown s) = refl

pub same_status-eq : (a b : AcmeStatus) → same_status a b ≡ true → a ≡ b
unfolding same_status
same_status-eq a b h =
    let tags : tag a ≡ tag b = ground (arith, h) in
    let details : detail a ≡ detail b = ground (arith, h, eq_iff (detail a) (detail b)) in
    sym (of_tag-tag a) ∙ rw (tags, details) (of_tag-tag b)
