-- ===== src/Tests/Profiles.antt =====
-- Profiles from an annotation and from the default.
use openshift_acme.Common.{◌≡◌, refl, lookup, insert}
use openshift_acme.Kube.{Route}
use openshift_acme.Kube.Key
use openshift_acme.Reconcile.Sample.{route}
use openshift_acme.Strings.{trim_space}
use openshift_acme.Profile.{cert_profile_for_route}

abbrev short_lived : Route
short_lived = record route {
  meta = record (route.meta) {
    annotations = insert Key.cert_profile " shortlived " route.meta.annotations;
  };
}

annotated : cert_profile_for_route short_lived "classic" ≡ "shortlived"
unfolding cert_profile_for_route lookup insert trim_space
annotated = refl
