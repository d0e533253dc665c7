-- ===== src/Profile.antt =====
-- pkg/controller/route/route.go, `certProfileForRoute`: the ACME profile that is asked for.
pub mod Trimmed
pub mod RoundTripper
use openshift_acme.Common.{
  ℕ, String, Bool, ◌&&◌, ◌||◌, Option, none, some, if◌then◌else◌, ◌==◌, leb, is_empty, lookup,
}
use openshift_acme.Kube.{Route}
use openshift_acme.Kube.Key
use openshift_acme.Strings.{trim_space}

unfoldable pub profile_or : Option String → String → String
profile_or none default_profile = trim_space default_profile
profile_or (some text) default_profile =
    let profile = trim_space text in
    if is_empty profile then trim_space default_profile else profile

unfoldable pub cert_profile_for_route : Route → String → String
unfolding profile_or
cert_profile_for_route route default_profile =
    profile_or (lookup Key.cert_profile route.meta.annotations) default_profile
