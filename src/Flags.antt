-- ===== src/Flags.antt =====
-- pkg/cmd/util/helpers.go: flags that are read from environment variables. The flags of a command are
-- a list without two of one name.
pub mod Precedence
use Prim.Native.Char.{Char, code}
use Prim.Native.String.{◌++◌ as ◌+++◌}
use openshift_acme.Common.{
  ℕ, ◌+◌, String, Bool, true, false, not, ◌||◌, Option, none, some, List, [], ◌∷◌, if◌then◌else◌,
  str_eq, ◌==◌,
}
use openshift_acme.Strings.{cut}

pub record Flag : Type 0 where
  pub name : String
  pub value : String
  pub changed : Bool

-- Functions of other packages: `to_upper` and `to_lower` of strings, `sort` of sort.Strings, and
-- `parse name text`, the value that the flag's `Set` stores for the text, if it accepts it.
pub record Texts : Type 0 where
  pub to_upper : String → String
  pub to_lower : String → String
  pub sort : List String → List String
  pub parse : String → String → Option String

-- `strings.ReplaceAll` of one character by another.
unfoldable pub replace_all : ℕ → Char → String → String
replace_all old new String.[] = ""
replace_all old new (String.◌∷◌ c s) =
    String.◌∷◌ (if code c == old then new else c) (replace_all old new s)

-- The rest of a text behind a prefix: `strings.HasPrefix` and `strings.TrimPrefix`.
unfoldable pub trim_prefix : String → String → Option String
trim_prefix String.[] s = some s
trim_prefix (String.◌∷◌ p ps) String.[] = none
trim_prefix (String.◌∷◌ p ps) (String.◌∷◌ c s) =
    let rest = trim_prefix ps s in if code p == code c then rest else none

unfoldable pub lookup_flag : String → List Flag → Option Flag
lookup_flag name [] = none
lookup_flag name (f ∷ fs) = if str_eq f.name name then some f else lookup_flag name fs

-- The flag with the name of the given one is replaced by it.
unfoldable pub put_flag : Flag → List Flag → List Flag
put_flag g [] = []
put_flag g (f ∷ fs) = (if str_eq f.name g.name then g else f) ∷ put_flag g fs

module _ (t : Texts) where
  -- `NormalizeNameForEnvVar`
  unfoldable pub normalize_name_for_env_var : String → String
  normalize_name_for_env_var name = replace_all b'-' "_" (t.to_upper name)

  unfoldable pub or_raw : Option Flag → String → List Flag → Option Flag
  or_raw none raw flags = lookup_flag raw flags
  or_raw (some f) raw flags = some f

  unfoldable pub set_value : Flag → String → Option String → List Flag → List Flag × ℕ
  set_value f text none flags = (flags, 1)
  set_value f text (some value) flags =
      (put_flag (record f { value = value; changed = true }) flags, 0)

  unfoldable pub set_flag : String → String → String → Option Flag → List Flag → List Flag × ℕ
  unfolding set_value
  set_flag prefix variable text none flags = (flags, 0)
  set_flag prefix variable text (some f) flags =
      if not (str_eq (normalize_name_for_env_var (prefix +++ f.name)) variable)
      then (flags, 0)
      else if f.changed
      then (flags, 0)
      else set_value f text (t.parse f.name text) flags

  unfoldable pub named_flag : String → List Flag → Option Flag
  unfolding or_raw
  named_flag raw flags = or_raw (lookup_flag (replace_all b'_' "-" raw) flags) raw flags

  unfoldable pub read_variable :
      String → String → String → Option String → List Flag → List Flag × ℕ
  unfolding set_flag named_flag
  read_variable prefix variable text none flags = (flags, 0)
  read_variable prefix variable text (some rest) flags =
      set_flag prefix variable text (named_flag (t.to_lower rest) flags) flags

  unfoldable pub read_entry : String → Option (String × String) → List Flag → List Flag × ℕ
  unfolding read_variable
  read_entry prefix none flags = (flags, 0)
  read_entry prefix (some (variable, text)) flags =
      read_variable prefix variable text (trim_prefix prefix variable) flags

  -- The loop over the sorted environment, with the number of its errors.
  unfoldable pub read_entries : String → List String → List Flag → List Flag × ℕ
  unfolding read_entry
  read_entries prefix [] flags = (flags, 0)
  read_entries prefix (entry ∷ entries) flags =
      let (flags', e) = read_entry prefix (cut b'=' entry) flags in
      let (flags'', es) = read_entries prefix entries flags' in (flags'', e + es)

  -- `ReadFlagsFromEnv`
  unfoldable pub read_flags_from_env : String → List String → List Flag → List Flag × ℕ
  unfolding read_entries
  read_flags_from_env prefix environ flags = read_entries prefix (t.sort environ) flags
