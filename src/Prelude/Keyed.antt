-- ===== src/Prelude/Keyed.antt =====
-- Tables whose rows have a text as their key, no two of them the same.
use mathlib.Core.Path.{◌≡◌, ◌∙◌, refl, sym}
use mathlib.Core.Logic.{inl, inr}
use mathlib.Core.Bool.{Bool, false}
use mathlib.Core.List.{List, [], ◌∷◌}
use mathlib.Core.Option.{some}
use Prim.Native.String.{String}
use text.Mathlib.TextEquality.{eq_iff}
use text.Mathlib.TextPositions.{eq_refl}
use coversational_algo_tradi.Prelude.Tests.{str_eq, Bool-cases}
use coversational_algo_tradi.Prelude.Lists.{
  All, All-zip, any_row, any_row-none, first_row, update_rows,
}

pub same_text : (a b : String) → str_eq a b ≡ str_eq b a
same_text a b = elim (Bool-cases (str_eq a b)) [
  | inl same ↦ rw ((eq_iff a b).0 same) refl
  | inr away ↦ elim (Bool-cases (str_eq b a)) [
    | inr apart ↦ away ∙ sym apart
    | inl equal ↦ rw ((eq_iff b a).0 equal) refl
  ]
]

module _ {A : Type 0} (key : A → String) where
  abbrev pub is_keyed : String → A → Bool
  is_keyed id x = str_eq (key x) id

  abbrev pub Distinct : List A → Type 0
  Distinct [] = Unit
  Distinct (x ∷ xs) = (any_row (is_keyed (key x)) xs ≡ false) × Distinct xs

  pub any_row-update_rows :
      (p : A → Bool) (f : A → A) (id : String) (xs : List A)
      → ((x : A) → key (f x) ≡ key x)
      → any_row (is_keyed id) (update_rows p f xs) ≡ any_row (is_keyed id) xs
  any_row-update_rows p f id [] keeps = refl
  any_row-update_rows p f id (x ∷ xs) keeps = elim (Bool-cases (p x)) [
    | inl this ↦ rw (this, keeps x, any_row-update_rows p f id xs keeps) refl
    | inr other ↦ rw (other, any_row-update_rows p f id xs keeps) refl
  ]

  -- An update that leaves the keys alone leaves them distinct.
  pub Distinct-update_rows :
      (p : A → Bool) (f : A → A) (xs : List A)
      → ((x : A) → key (f x) ≡ key x)
      → Distinct xs
      → Distinct (update_rows p f xs)
  Distinct-update_rows p f [] keeps h = tt
  Distinct-update_rows p f (x ∷ xs) keeps h = elim (Bool-cases (p x)) [
    | inl this ↦
        rw (this, keeps x, any_row-update_rows p f (key x) xs keeps)
          (h.0, Distinct-update_rows p f xs keeps h.1)
    | inr other ↦
        rw (other, any_row-update_rows p f (key x) xs keeps)
          (h.0, Distinct-update_rows p f xs keeps h.1)
  ]

  -- With distinct keys, every row is the one that its key reads.
  pub Distinct-first_row :
      (xs : List A) → Distinct xs → All (λ x. first_row (is_keyed (key x)) xs ≡ some x) xs
  Distinct-first_row [] h = tt
  Distinct-first_row (x ∷ xs) h = (
    rw (eq_refl (key x)) refl,
    All-zip (λ y. is_keyed (key x) y ≡ false) (λ y. first_row (is_keyed (key y)) xs ≡ some y)
        (λ y. first_row (is_keyed (key y)) (x ∷ xs) ≡ some y) xs
        (λ y apart found. passes y apart found) (any_row-none (is_keyed (key x)) xs h.0)
        (Distinct-first_row xs h.1),
  )
    where
      passes :
          (y : A)
          → is_keyed (key x) y ≡ false
          → first_row (is_keyed (key y)) xs ≡ some y
          → first_row (is_keyed (key y)) (x ∷ xs) ≡ some y
      passes y apart found = elim (Bool-cases (str_eq (key x) (key y))) [
        | inl same ↦
            let equal : key x ≡ key y = (eq_iff (key x) (key y)).0 same in
            let bad : str_eq (key y) (key y) ≡ false = rw equal at apart in
            let good = eq_refl (key y) in cc
        | inr other ↦ rw other found
      ]
