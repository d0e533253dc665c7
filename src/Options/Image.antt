-- ===== src/Options/Image.antt =====
-- Where the image of the exposer comes from.
use mathlib.Core.Path.{subst}
use openshift_acme.Common.{
  String, Bool, true, false, not, ◌≡◌, ◌∙◌, refl, sym, Option, none, some, List, ◌⊎◌, inl, inr,
  is_empty, eq_refl, if◌then◌else◌, ◌==◌,
}
use openshift_acme.Errors.{Result, ok, err, invalid_flags}
use openshift_acme.Flags.{Flag, Texts, lookup_flag, read_flags_from_env}
use openshift_acme.Flags.Precedence.{
  SortsOnly, ComesFrom, lookup_flag-name, lookup_flag-put_flag, flags_keep_or_come_from_environment,
}
use openshift_acme.Options.PreRun.{set_image, legacy_value, legacy_image, pre_run}

abbrev pub image_flag : String
image_flag = "exposer-image"

module _ (t : Texts) (lookup_env : String → Option String) where
  -- The variable of the older name sets the flag `before`, which nothing else has set, to `after`.
  pub record Inherits (before after : Flag) : Type 0 where
    pub unchanged : before.changed ≡ false
    pub image : String
    pub assigned : lookup_env "OPENSHIFT_ACME_EXPOSER_IMAGE" ≡ some image
    pub given : is_empty image ≡ false
    pub parsed : t.parse before.name image ≡ some after.value

  -- The flag as it is after the older variable was read.
  record Final (flags : List Flag) (h : Flag) : Type 0 where
    flag : Flag
    found : lookup_flag image_flag flags ≡ some flag
    origin : (h ≡ flag) ⊎ Inherits h flag
    last : flag.changed ≡ false → lookup_env "OPENSHIFT_ACME_EXPOSER_IMAGE" ≡ none

  Final-if :
      (h : Flag) (b : Bool) (m n : List Flag × Result (Unit {0}))
      → (b ≡ true → m.1 ≡ ok tt → Final m.0 h)
      → (b ≡ false → n.1 ≡ ok tt → Final n.0 h)
      → (if b then m else n).1 ≡ ok tt
      → Final (if b then m else n).0 h
  Final-if h true m n k l done = k refl done
  Final-if h false m n k l done = l refl done

  module _ (flags : List Flag) (h : Flag) (held : lookup_flag image_flag flags ≡ some h) where
    set_image-Final :
        (image : String)
        → h.changed ≡ false
        → lookup_env "OPENSHIFT_ACME_EXPOSER_IMAGE" ≡ some image
        → is_empty image ≡ false
        → (o : Option String) → t.parse h.name image ≡ o
        → (set_image h flags o).1 ≡ ok tt
        → Final (set_image h flags o).0 h
    unfolding set_image
    set_image-Final image fresh e given none parsed done = cc done
    set_image-Final image fresh e given (some value) parsed done =
        let named = lookup_flag-name image_flag flags held in
        record {
          flag = record h { value = value; changed = true };
          found =
              lookup_flag-put_flag (record h { value = value; changed = true }) flags image_flag h
                held
              ∙ rw named (rw (eq_refl image_flag) refl);
          origin = inr (record {
            unchanged = fresh;
            image = image;
            assigned = e;
            given = given;
            parsed = parsed;
          });
          last = λ k. cc k;
        }

    legacy_value-Final :
        h.changed ≡ false
        → (o : Option String) → lookup_env "OPENSHIFT_ACME_EXPOSER_IMAGE" ≡ o
        → (legacy_value t lookup_env h flags o).1 ≡ ok tt
        → Final (legacy_value t lookup_env h flags o).0 h
    unfolding legacy_value
    legacy_value-Final fresh none e done = record {
      flag = h;
      found = held;
      origin = inl refl;
      last = λ k. e;
    }
    legacy_value-Final fresh (some image) e done =
        Final-if h (is_empty image) _ _ (λ _ failed. cc failed)
          (λ given. set_image-Final image fresh e given (t.parse h.name image) refl) done

    legacy_image-Final :
        (legacy_image t lookup_env (some h) flags).1 ≡ ok tt
        → Final (legacy_image t lookup_env (some h) flags).0 h
    unfolding legacy_image
    legacy_image-Final done =
        Final-if h h.changed _ _
          (λ set _. record {
            flag = h;
            found = held;
            origin = inl refl;
            last = λ fresh. cc (set, fresh);
          })
          (λ fresh. legacy_value-Final fresh (lookup_env "OPENSHIFT_ACME_EXPOSER_IMAGE") refl) done

  module _ (environ : List String) (flags : List Flag) (f : Flag) where
    abbrev Read : Flag → Type 0
    Read h = ComesFrom t "OPENSHIFT_ACME_CONTROLLER_" environ f h

    origin_of : (h g : Flag) → Read h → (h ≡ g) ⊎ Inherits h g → Read g ⊎ Inherits f g
    origin_of h g read (inl same) = inl (subst Read same read)
    origin_of h g (inl same) (inr inherits) = inr (subst (λ k. Inherits k g) (sym same) inherits)
    origin_of h g (inr (entry, m, sets)) (inr inherits) =
        let set = sets.now_changed in let fresh = inherits.unchanged in cc (sym set ∙ fresh)

    -- If `PersistentPreRunE` succeeds, then the flag with the image of the exposer is as it was, or has
    -- the value of an entry of the environment for it, or that of the variable with the older name; the
    -- last two only if it was not set on the command line. If nothing has set it, then the variable with
    -- the older name is not set either. Assumed is that sort.Strings only moves the entries.
    pub pre_run_sets_image :
        SortsOnly t
        → lookup_flag image_flag flags ≡ some f
        → (pre_run t lookup_env environ flags).1 ≡ ok tt
        → (g : Flag) × (lookup_flag image_flag (pre_run t lookup_env environ flags).0 ≡ some g)
          × (ComesFrom t "OPENSHIFT_ACME_CONTROLLER_" environ f g ⊎ Inherits f g)
          × (g.changed ≡ false → lookup_env "OPENSHIFT_ACME_EXPOSER_IMAGE" ≡ none)
    unfolding pre_run
    pre_run_sets_image sorts held done =
        let (h, read, from) =
          flags_keep_or_come_from_environment t "OPENSHIFT_ACME_CONTROLLER_" environ image_flag f
            flags sorts held in
        let flags' = (read_flags_from_env t "OPENSHIFT_ACME_CONTROLLER_" environ flags).0 in
        let final : Final (pre_run t lookup_env environ flags).0 h =
          Final-if h
            (not ((read_flags_from_env t "OPENSHIFT_ACME_CONTROLLER_" environ flags).1 == 0))
            (flags', err invalid_flags) _ (λ _ failed. cc failed)
            (λ _.
              subst
                (λ o.
                  (legacy_image t lookup_env o flags').1 ≡ ok tt
                  → Final (legacy_image t lookup_env o flags').0 h)
                (sym read) (legacy_image-Final flags' h read))
            done in
        (final.flag, final.found, origin_of h final.flag from final.origin, final.last)
