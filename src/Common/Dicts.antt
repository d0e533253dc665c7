-- ===== src/Common/Dicts.antt =====
-- Go's `map[string]V`, as an association list without an order that the program may rely on.
use Prim.Native.String.{String}
use mathlib.Core.Path.{◌≡◌, refl}
use mathlib.Core.Bool.{Bool, true, false, ◌&&◌}
use mathlib.Core.Logic.{◌↔◌, inl, inr}
use mathlib.Core.Option.{Option, none, some}
use mathlib.Core.List.{List, [], ◌∷◌}
use native.Mathlib.Omega.{arith}
use text.Mathlib.Text.{◌==◌}
use text.Mathlib.TextEquality.{eq_iff}
use text.Mathlib.TextPositions.{eq_refl}
use openshift_acme.Common.Tests.{Bool-cases, and_true, if◌then◌else◌}

abbrev pub Dict {ℓ} : Type ℓ → Type ℓ
Dict V = List (String × V)

module _ {ℓ} {V : Type ℓ} where
  unfoldable pub lookup : String → Dict V → Option V
  lookup key [] = none
  lookup key ((name, value) ∷ entries) = if name == key then some value else lookup key entries

  unfoldable pub insert : String → V → Dict V → Dict V
  insert key value [] = (key, value) ∷ []
  insert key value ((name, old) ∷ entries) =
      if name == key then (key, value) ∷ entries else (name, old) ∷ insert key value entries

  -- `for key := range entries { if drop(key) { delete(entries, key) } }`
  unfoldable pub delete_where : (String → Bool) → Dict V → Dict V
  delete_where drop [] = []
  delete_where drop ((name, value) ∷ entries) =
      let rest = delete_where drop entries in if drop name then rest else (name, value) ∷ rest

  -- `delete(entries, key)`
  unfoldable pub delete : String → Dict V → Dict V
  unfolding delete_where
  delete key = delete_where (λ name. name == key)

  pub lookup-insert :
      (key name : String) (value : V) (entries : Dict V)
      → lookup name (insert key value entries)
        ≡ (if key == name then some value else lookup name entries)
  unfolding lookup insert
  lookup-insert key name value [] = refl
  lookup-insert key name value ((other, old) ∷ entries) = ground (
    arith,
    eq_iff key name,
    eq_iff other key,
    eq_iff other name,
    lookup-insert key name value entries,
  )

  pub lookup-delete_where :
      (drop : String → Bool) (name : String) (entries : Dict V)
      → lookup name (delete_where drop entries) ≡ (if drop name then none else lookup name entries)
  unfolding lookup delete_where
  lookup-delete_where drop name [] = ground arith
  lookup-delete_where drop name ((other, old) ∷ entries) =
      ground (arith, eq_iff other name, lookup-delete_where drop name entries)

-- `reflect.DeepEqual` of a map and an updated copy of it, which keeps the order of the entries.
unfoldable pub dict_eq : Dict String → Dict String → Bool
dict_eq [] [] = true
dict_eq [] (e ∷ entries) = false
dict_eq (e ∷ entries) [] = false
dict_eq ((other, value) ∷ entries) ((name, old) ∷ copy) =
    other == name && (value == old && dict_eq entries copy)

pub dict_eq_refl : (entries : Dict String) → dict_eq entries entries ≡ true
unfolding dict_eq
dict_eq_refl [] = refl
dict_eq_refl ((other, value) ∷ entries) =
    ground (arith, eq_iff other other, eq_iff value value, dict_eq_refl entries)

-- A copy of a map with one entry written is equal to the map exactly if that entry was there.
pub dict_eq-insert :
    (key value : String) (entries : Dict String)
    → (dict_eq (insert key value entries) entries ≡ true) ↔ (lookup key entries ≡ some value)
unfolding dict_eq insert lookup
dict_eq-insert key value [] = (λ h. cc, λ h. cc)
dict_eq-insert key value ((name, old) ∷ entries) = elim (Bool-cases (name == key)) [
  | inl e ↦ rw e (
    λ h. ground (arith, eq_iff value old, h),
    λ h.
        ground (arith, eq_iff key name, eq_iff name key, eq_iff value old, dict_eq_refl entries, h),
  )
  | inr e ↦ rw e (
    λ h. (dict_eq-insert key value entries).0 (and_true _ _ (and_true _ _ h).1).1,
    λ h. ground (arith, eq_refl name, eq_refl old, (dict_eq-insert key value entries).1 h),
  )
]
