-- ===== src/Flags/Precedence.antt =====
-- Where the values of flags come from.
use Prim.Native.String.{◌++◌ as ◌+++◌}
use openshift_acme.Common.{
  String, true, false, ◌≡◌, ◌∙◌, refl, sym, Option, none, some, List, [], ◌∷◌, ◌⊎◌, inl, inr, Any,
  All, All-members, str_eq, eq_iff, if◌then◌else◌, arith, ap, Bool-cases,
}
use mathlib.Core.Path.{subst}
use mathlib.Core.Option.{some-injective}
use openshift_acme.Strings.{cut}
use openshift_acme.Flags.{
  Flag, Texts, lookup_flag, put_flag, normalize_name_for_env_var, or_raw, set_value, set_flag,
  named_flag, read_variable, read_entry, read_entries, read_flags_from_env,
}

-- `sort.Strings` only moves the texts.
abbrev pub SortsOnly : Texts → Type 1
SortsOnly t = (P : String → Type 0) (texts : List String) → All P texts → All P (t.sort texts)

module _ (t : Texts) (prefix : String) where
  -- The entry of the environment sets the flag `before` to `after`: its name is the flag's, and the
  -- value is that of its text.
  pub record Sets (before after : Flag) (entry : String) : Type 0 where
    pub variable : String
    pub text : String
    pub assigned : cut b'=' entry ≡ some (variable, text)
    pub has_name : normalize_name_for_env_var t (prefix +++ before.name) ≡ variable
    pub unchanged : before.changed ≡ false
    pub parsed : t.parse before.name text ≡ some after.value
    pub same_name : after.name ≡ before.name
    pub now_changed : after.changed ≡ true

pub lookup_flag-name :
    (name : String) (fs : List Flag) {f : Flag} → lookup_flag name fs ≡ some f → f.name ≡ name
unfolding lookup_flag
lookup_flag-name name [] h = cc
lookup_flag-name name (g ∷ fs) {f} h = elim (Bool-cases (str_eq g.name name)) [
  | inl same ↦
      let found = some-injective _ _ (rw same at h) in
      ap (λ x. x.name) (sym found) ∙ (eq_iff g.name name).0 same
  | inr other ↦ lookup_flag-name name fs (rw other at h)
]

pub lookup_flag-put_flag :
    (g : Flag) (fs : List Flag) (name : String) (f : Flag)
    → lookup_flag name fs ≡ some f
    → lookup_flag name (put_flag g fs) ≡ some (if str_eq g.name name then g else f)
unfolding lookup_flag put_flag
lookup_flag-put_flag g [] name f h = cc
lookup_flag-put_flag g (x ∷ fs) name f h = ground (
  arith,
  eq_iff x.name name,
  eq_iff g.name name,
  eq_iff x.name g.name,
  lookup_flag-put_flag g fs name f,
)

lookup_flag-held :
    (name : String) (flags : List Flag) (h : Flag)
    → lookup_flag name flags ≡ some h
    → lookup_flag h.name flags ≡ some h
lookup_flag-held name flags h e =
    subst (λ n. lookup_flag n flags ≡ some h) (sym (lookup_flag-name name flags e)) e

or_raw_held :
    (t : Texts) (raw : String) (flags : List Flag) (h : Flag) (first : Option Flag)
    → ((g : Flag) → first ≡ some g → lookup_flag g.name flags ≡ some g)
    → or_raw t first raw flags ≡ some h
    → lookup_flag h.name flags ≡ some h
unfolding or_raw
or_raw_held t raw flags h none own e = lookup_flag-held raw flags h e
or_raw_held t raw flags h (some g) own e = own h e

named_flag_held :
    (t : Texts) (raw : String) (flags : List Flag) (h : Flag)
    → named_flag t raw flags ≡ some h
    → lookup_flag h.name flags ≡ some h
unfolding named_flag
named_flag_held t raw flags h e = or_raw_held t raw flags h _ (λ g. lookup_flag-held _ flags g) e

module _ (t : Texts) (prefix : String) (name : String) (f : Flag) where
  -- The flags still hold `f`, or what the entry makes of it.
  abbrev Kept : String → List Flag → Type 0
  Kept entry fs =
      (lookup_flag name fs ≡ some f)
      ⊎ ((g : Flag) × (lookup_flag name fs ≡ some g) × Sets t prefix f g entry)

  module _ (flags : List Flag) (held : lookup_flag name flags ≡ some f)
      (entry variable text : String) (assigned : cut b'=' entry ≡ some (variable, text)) where
    set_value-Kept :
        (h : Flag) (parsed : Option String)
        → lookup_flag h.name flags ≡ some h
        → normalize_name_for_env_var t (prefix +++ h.name) ≡ variable
        → h.changed ≡ false
        → t.parse h.name text ≡ parsed
        → Kept entry (set_value t h text parsed flags).0
    unfolding set_value
    set_value-Kept h none own named fresh e = inl held
    set_value-Kept h (some value) own named fresh e =
        let g : Flag = record h { value = value; changed = true } in
        let put = lookup_flag-put_flag g flags name f held in
        elim (Bool-cases (str_eq h.name name)) [
          | inl same ↦
              let there =
                subst (λ n. lookup_flag n flags ≡ some h) ((eq_iff h.name name).0 same) own in
              let self = some-injective _ _ (sym there ∙ held) in
              let sets : Sets t prefix h g entry = record {
                variable = variable;
                text = text;
                assigned = assigned;
                has_name = named;
                unchanged = fresh;
                parsed = e;
                same_name = refl;
                now_changed = refl;
              } in
              inr (g, rw same at put, subst (λ x. Sets t prefix x g entry) self sets)
          | inr other ↦ inl (rw other at put)
        ]

    set_flag-Kept :
        (found : Option Flag)
        → ((h : Flag) → found ≡ some h → lookup_flag h.name flags ≡ some h)
        → Kept entry (set_flag t prefix variable text found flags).0
    unfolding set_flag
    set_flag-Kept none own = inl held
    set_flag-Kept (some h) own =
        elim (Bool-cases (str_eq (normalize_name_for_env_var t (prefix +++ h.name)) variable)) [
          | inr other ↦ rw other (inl held)
          | inl same ↦ rw same (elim (Bool-cases h.changed) [
            | inl set ↦ rw set (inl held)
            | inr fresh ↦
                rw fresh (set_value-Kept h _ (own h refl) ((eq_iff _ variable).0 same) fresh refl)
          ])
        ]

  read_variable-Kept :
      (flags : List Flag) (entry variable text : String) (rest : Option String)
      → lookup_flag name flags ≡ some f
      → cut b'=' entry ≡ some (variable, text)
      → Kept entry (read_variable t prefix variable text rest flags).0
  unfolding read_variable
  read_variable-Kept flags entry variable text none held assigned = inl held
  read_variable-Kept flags entry variable text (some rest) held assigned =
      set_flag-Kept flags held entry variable text assigned _ (named_flag_held t _ flags)

  read_entry-Kept :
      (flags : List Flag) (entry : String) (parts : Option (String × String))
      → lookup_flag name flags ≡ some f
      → cut b'=' entry ≡ parts
      → Kept entry (read_entry t prefix parts flags).0
  unfolding read_entry
  read_entry-Kept flags entry none held e = inl held
  read_entry-Kept flags entry (some (variable, text)) held e =
      read_variable-Kept flags entry variable text _ held e

-- The value of a flag after the environment was read: that of before, or that of an entry of the
-- environment.
abbrev pub ComesFrom : Texts → String → List String → Flag → Flag → Type 0
ComesFrom t prefix environ f g =
    (f ≡ g) ⊎ ((entry : String) × Any (λ e. e ≡ entry) environ × Sets t prefix f g entry)

module _ (t : Texts) (prefix : String) (environ : List String) (name : String) where
  abbrev IsEntry : String → Type 0
  IsEntry entry = Any (λ e. e ≡ entry) environ

  -- A flag that is set stays.
  read_entries_set :
      (f g : Flag) (entries : List String) (flags : List Flag) (entry : String)
      → IsEntry entry
      → Sets t prefix f g entry
      → lookup_flag name flags ≡ some g
      → (h : Flag) × (lookup_flag name (read_entries t prefix entries flags).0 ≡ some h)
        × ComesFrom t prefix environ f h
  unfolding read_entries
  read_entries_set f g [] flags entry m s held = (g, held, inr (entry, m, s))
  read_entries_set f g (e ∷ entries) flags entry m s held =
      elim (read_entry-Kept t prefix name g flags e _ held refl) [
        | inl kept ↦ read_entries_set f g entries _ entry m s kept
        | inr (h, held', again) ↦
            (let u = again.unchanged in let v = s.now_changed in cc (sym u ∙ v))
      ]

  read_entries-ComesFrom :
      (f : Flag) (entries : List String) (flags : List Flag)
      → All IsEntry entries
      → lookup_flag name flags ≡ some f
      → (h : Flag) × (lookup_flag name (read_entries t prefix entries flags).0 ≡ some h)
        × ComesFrom t prefix environ f h
  unfolding read_entries
  read_entries-ComesFrom f [] flags m held = (f, held, inl refl)
  read_entries-ComesFrom f (e ∷ entries) flags m held =
      elim (read_entry-Kept t prefix name f flags e _ held refl) [
        | inl kept ↦ read_entries-ComesFrom f entries _ m.1 kept
        | inr (g, held', sets) ↦ read_entries_set f g entries _ e m.0 sets held'
      ]

  -- After the environment was read a flag is still there. It is as it was, or it was not set on the
  -- command line and now has the value of an entry of the environment, whose name is the normalized
  -- name of the flag behind the prefix. Assumed is that sort.Strings only moves the entries.
  pub flags_keep_or_come_from_environment :
      (f : Flag) (flags : List Flag)
      → SortsOnly t
      → lookup_flag name flags ≡ some f
      → (g : Flag) × (lookup_flag name (read_flags_from_env t prefix environ flags).0 ≡ some g)
        × ComesFrom t prefix environ f g
  unfolding read_flags_from_env
  flags_keep_or_come_from_environment f flags sorts held =
      read_entries-ComesFrom f (t.sort environ) flags
        (sorts IsEntry environ (All-members IsEntry environ (λ e m. m))) held
