-- ===== src/Tests/Commands.antt =====
-- Options of the controller, completed, and flags from the environment.
use openshift_acme.Common.{
  String, Option, All, ◌⊎◌, ap, List, ◌≡◌, refl, true, false, some, none, [], ◌∷◌,
}
use openshift_acme.Errors.{Result, ok, err, not_found}
use openshift_acme.Informers.{contains, new_informers, informers_for_or_global}
use openshift_acme.Options.PreRun.{pre_run, legacy_image, legacy_value, set_image}
use openshift_acme.Options.Image.{Inherits, pre_run_sets_image}
use openshift_acme.Start.{
  Setup, routes, secrets, services, replica_sets, config_maps, limit_ranges, new_route_controller,
  new_account_controller,
}
use openshift_acme.Informers.Listed.{IsIn, AreStarted}
use openshift_acme.Start.Synced.{controllers_sync_caches}
use openshift_acme.Options.{
  new_options, Options, Environment, complete, complete_namespaces, unique,
}
use openshift_acme.Strings.{cut}
use openshift_acme.Flags.{
  Flag, Texts, lookup_flag, read_flags_from_env, read_entries, trim_prefix, replace_all, put_flag,
  normalize_name_for_env_var,
}
use openshift_acme.Flags.Precedence.{ComesFrom, flags_keep_or_come_from_environment}
use openshift_acme.Options.Namespaces.{IsDistinct, watches, complete-IsDistinct}

abbrev environment : Environment (Unit {0})
environment = record {
  load_config = λ _. err not_found;
  in_cluster_config = ok tt;
  read_file = λ _. ok "acme";
  new_kube_client = λ _. ok tt;
  new_route_client = λ _. ok tt;
}

abbrev options : Options
options = record new_options { namespaces = "web" ∷ "acme" ∷ "web" ∷ [] }

abbrev completed : Options
completed = record options { controller_namespace = "acme"; namespaces = "web" ∷ "acme" ∷ [] }

completes : complete environment options ≡ ok completed
unfolding complete complete_namespaces unique contains new_options
completes = refl

complete-IsDistinct_example :
    IsDistinct completed.namespaces
    × ((name : String)
        → contains completed.namespaces name ≡ watches options.namespaces "acme" name)
complete-IsDistinct_example = complete-IsDistinct environment options completed completes

-- The texts of one flag.
abbrev texts : Texts
texts = record {
  to_upper = λ _. "P_WORKERS";
  to_lower = λ _. "workers";
  sort = λ entries. entries;
  parse = λ _ text. some text;
}

abbrev workers : Flag
workers = record { name = "workers"; value = "50"; changed = false }

flags_keep_or_come_from_environment_example :
    (g : Flag) × (lookup_flag "workers"
        (read_flags_from_env texts "P_" ("P_WORKERS=3" ∷ []) (workers ∷ [])).0
      ≡ some g)
    × ComesFrom texts "P_" ("P_WORKERS=3" ∷ []) workers g
unfolding lookup_flag
flags_keep_or_come_from_environment_example =
    flags_keep_or_come_from_environment texts "P_" ("P_WORKERS=3" ∷ []) "workers" workers
      (workers ∷ []) (λ P entries h. h) refl

reads_workers :
    read_flags_from_env texts "P_" ("P_WORKERS=3" ∷ []) (workers ∷ [])
    ≡ (record workers { value = "3"; changed = true } ∷ [], 0)
unfolding read_flags_from_env read_entries cut trim_prefix lookup_flag replace_all put_flag
    normalize_name_for_env_var
reads_workers = refl

-- The name of the namespace stands for its factory.
controllers_sync_caches_example :
    ((s : Setup String String) × (new_route_controller
          (new_informers (λ name. name) completed.namespaces)
          (new_informers (λ name. name) completed.namespaces)
        ≡ ok s)
      × ((name g : String)
          → informers_for_or_global (new_informers (λ name. name) completed.namespaces) name
            ≡ some g
          → IsIn (routes g) s.caches_to_sync)
      × ((name f : String)
          → informers_for_or_global (new_informers (λ name. name) completed.namespaces) name
            ≡ some f
          → All
              (λ x. IsIn x s.caches_to_sync)
              (secrets f ∷ services f ∷ replica_sets f ∷ config_maps f ∷ limit_ranges f ∷ [])))
    × ((s : Setup String String) × (new_account_controller
            (new_informers (λ name. name) completed.namespaces)
          ≡ ok s)
        × ((name f : String)
            → informers_for_or_global (new_informers (λ name. name) completed.namespaces) name
              ≡ some f
            → All (λ x. IsIn x s.caches_to_sync) (config_maps f ∷ secrets f ∷ [])))
    × AreStarted (new_informers (λ name. name) completed.namespaces)
    × AreStarted (new_informers (λ name. name) completed.namespaces)
controllers_sync_caches_example =
    controllers_sync_caches (λ name. name) (λ name. name) environment options completed completes

abbrev image : Flag
image = record { name = "exposer-image"; value = "default"; changed = false }

abbrev image_texts : Texts
image_texts = record {
  to_upper = λ _. "P_EXPOSER_IMAGE";
  to_lower = λ _. "exposer-image";
  sort = λ entries. entries;
  parse = λ _ text. some text;
}

abbrev legacy : String → Option String
legacy name = some "old"

inherited :
    pre_run image_texts legacy [] (image ∷ [])
    ≡ (record image { value = "old"; changed = true } ∷ [], ok tt)
unfolding pre_run read_flags_from_env read_entries lookup_flag legacy_image legacy_value set_image
    put_flag
inherited = refl

pre_run_sets_image_example :
    (g : Flag) × (lookup_flag "exposer-image" (pre_run image_texts legacy [] (image ∷ [])).0
      ≡ some g)
    × (ComesFrom image_texts "OPENSHIFT_ACME_CONTROLLER_" [] image g
        ⊎ Inherits image_texts legacy image g)
    × (g.changed ≡ false → legacy "OPENSHIFT_ACME_EXPOSER_IMAGE" ≡ none)
unfolding lookup_flag
pre_run_sets_image_example =
    pre_run_sets_image image_texts legacy [] (image ∷ []) image (λ P entries h. h) refl
      (ap (λ (r : List Flag × Result (Unit {0})). r.1) inherited)
