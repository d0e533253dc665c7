-- ===== src/Informers/Listed.antt =====
-- Which factories the listers of a namespace read.
use mathlib.Core.Option.{some-injective}
use openshift_acme.Common.{
  String, true, false, ◌≡◌, ◌∙◌, refl, sym, Option, none, some, List, [], ◌∷◌, Dict, lookup, Any,
  str_eq, eq_iff, Bool-cases, inl, inr,
}
use openshift_acme.Informers.{
  namespaces, informers_for, informers_for_or_global, or_global, start_all,
}

abbrev pub IsIn : {A : Type 0} → A → List A → Type 0
IsIn a xs = Any (λ x. x ≡ a) xs

module _ {I : Type 0} where
  informers_for-first :
      (i : Dict I) (m n : String) (g : I)
      → str_eq m n ≡ true
      → informers_for ((m, g) ∷ i) n ≡ some g
  unfolding informers_for lookup
  informers_for-first i m n g h = rw h refl

  informers_for-other :
      (i : Dict I) (m n : String) (g : I)
      → str_eq m n ≡ false
      → informers_for ((m, g) ∷ i) n ≡ informers_for i n
  unfolding informers_for lookup
  informers_for-other i m n g h = rw h refl

  -- Every name has its factory.
  pub lookup-namespaces :
      (i : Dict I) (n : String) → IsIn n (namespaces i) → (f : I) × (informers_for i n ≡ some f)
  unfolding namespaces
  lookup-namespaces [] n h = absurd h
  lookup-namespaces ((m, f) ∷ i) n h = elim (Bool-cases (str_eq m n)) [
    | inl same ↦ (f, informers_for-first i m n f same)
    | inr other ↦ elim h [
      | inl here ↦ (f, informers_for-first i m n f ((eq_iff m n).1 here))
      | inr there ↦
          let (g, found) = lookup-namespaces i n there in
          (g, informers_for-other i m n f other ∙ found)
    ]
  ]

  -- Only the names have factories.
  pub namespaces-lookup :
      (i : Dict I) (n : String) (f : I) → informers_for i n ≡ some f → IsIn n (namespaces i)
  unfolding namespaces informers_for lookup
  namespaces-lookup [] n f h = cc h
  namespaces-lookup ((m, g) ∷ i) n f h = elim (Bool-cases (str_eq m n)) [
    | inl same ↦ inl ((eq_iff m n).0 same)
    | inr other ↦ inr (namespaces-lookup i n f (sym (informers_for-other i m n g other) ∙ h))
  ]

  start_all-started :
      (i : Dict I) (n : String) (f : I) → informers_for i n ≡ some f → IsIn f (start_all i)
  unfolding start_all informers_for lookup
  start_all-started [] n f h = cc h
  start_all-started ((m, g) ∷ i) n f h = elim (Bool-cases (str_eq m n)) [
    | inl same ↦ inl (some-injective _ _ (sym (informers_for-first i m n g same) ∙ h))
    | inr other ↦ inr (start_all-started i n f (sym (informers_for-other i m n g other) ∙ h))
  ]

  pub or_global-cases :
      (i : Dict I) (name : String) (f : I)
      → informers_for_or_global i name ≡ some f
      → (n : String) × (informers_for i n ≡ some f)
  unfolding informers_for_or_global informers_for or_global
  or_global-cases i name f h = go (lookup name i) refl h
    where
      go :
          (o : Option I)
          → lookup name i ≡ o
          → or_global i o ≡ some f
          → (n : String) × (lookup n i ≡ some f)
      go none e k = ("", k)
      go (some g) e k = (name, e ∙ k)

  -- Every factory that a lister reads is started.
  abbrev pub AreStarted : Dict I → Type 0
  AreStarted i =
      (name : String) (f : I) → informers_for_or_global i name ≡ some f → IsIn f (start_all i)

  pub listed-AreStarted : (i : Dict I) → AreStarted i
  listed-AreStarted i name f h =
      let (n, found) = or_global-cases i name f h in start_all-started i n f found
