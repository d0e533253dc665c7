-- ===== src/Options/PreRun.antt =====
-- pkg/cmd/openshift-acme-controller/openshift-acme-controller.go, `PersistentPreRunE`: the flags of the
-- controller from the environment, and the image of the exposer from a variable of an older name.
use openshift_acme.Common.{
  String, true, List, Option, none, some, not, ◌==◌, if◌then◌else◌, is_empty,
}
use openshift_acme.Errors.{
  Result, ok, err, invalid_flags, empty_exposer_image, invalid_exposer_image,
}
use openshift_acme.Flags.{Flag, Texts, lookup_flag, put_flag, read_flags_from_env}

unfoldable pub set_image : Flag → List Flag → Option String → List Flag × Result (Unit {0})
set_image f flags none = (flags, err invalid_exposer_image)
set_image f flags (some value) =
    (put_flag (record f { value = value; changed = true }) flags, ok tt)

-- `lookup_env` is os.LookupEnv.
module _ (t : Texts) (lookup_env : String → Option String) where
  unfoldable pub legacy_value : Flag → List Flag → Option String → List Flag × Result (Unit {0})
  unfolding set_image
  legacy_value f flags none = (flags, ok tt)
  legacy_value f flags (some image) =
      if is_empty image
      then (flags, err empty_exposer_image)
      else set_image f flags (t.parse f.name image)

  unfoldable pub legacy_image : Option Flag → List Flag → List Flag × Result (Unit {0})
  unfolding legacy_value
  legacy_image none flags = (flags, ok tt)
  legacy_image (some f) flags =
      if f.changed
      then (flags, ok tt)
      else legacy_value f flags (lookup_env "OPENSHIFT_ACME_EXPOSER_IMAGE")

  unfoldable pub pre_run : List String → List Flag → List Flag × Result (Unit {0})
  unfolding legacy_image
  pre_run environ flags =
      let (read, errors) = read_flags_from_env t "OPENSHIFT_ACME_CONTROLLER_" environ flags in
      if not (errors == 0)
      then (read, err invalid_flags)
      else legacy_image (lookup_flag "exposer-image" read) read
