-- ===== src/Profile/Trimmed.antt =====
-- The profile has no white space around it.
use openshift_acme.Common.{String, ◌≡◌, Option, none, some, Bool-cases, inl, inr, is_empty, lookup}
use openshift_acme.Kube.{Route}
use openshift_acme.Kube.Key
use openshift_acme.Strings.{trim_space}
use openshift_acme.Strings.Trim.{trim_space_twice}
use openshift_acme.Profile.{profile_or, cert_profile_for_route}

profile_or-trimmed :
    (text : Option String) (default_profile : String)
    → trim_space (profile_or text default_profile) ≡ profile_or text default_profile
unfolding profile_or
profile_or-trimmed none default_profile = trim_space_twice default_profile
profile_or-trimmed (some text) default_profile = elim (Bool-cases (is_empty (trim_space text))) [
  | inl blank ↦ rw blank (trim_space_twice default_profile)
  | inr given ↦ rw given (trim_space_twice text)
]

-- The profile that is asked for has no white space at its ends: `strings.TrimSpace` leaves it as it is,
-- whatever the annotation and the default are.
pub profile_trimmed :
    (route : Route) (default_profile : String)
    → trim_space (cert_profile_for_route route default_profile)
      ≡ cert_profile_for_route route default_profile
unfolding cert_profile_for_route
profile_trimmed route default_profile =
    profile_or-trimmed (lookup Key.cert_profile route.meta.annotations) default_profile
