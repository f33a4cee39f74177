-- ===== src/Prelude/Lists.antt =====
-- Lists as the rows of a table: lengths over the native numbers, filters by a Boolean test, and
-- predicates on every row.
use Prim.Native.Nat.{ℕ, suc, ◌≤◌}
use mathlib.Core.Path.{◌≡◌, refl, subst}
use mathlib.Core.Bool.{Bool, true, false}
use mathlib.Core.List.{List, [], ◌∷◌}
use mathlib.Core.Option.{Option, none, some}
use native.Mathlib.Omega.{arith}
use mathlib.Core.Logic.{inl, inr}
use coversational_algo_tradi.Prelude.Tests.{if◌then◌else◌, Bool-cases}

module _ {ℓ} {A : Type ℓ} where
  abbrev pub length : List A → ℕ
  length [] = 0
  length (x ∷ xs) = suc (length xs)

  -- `SELECT … WHERE test`
  abbrev pub where_rows : (A → Bool) → List A → List A
  where_rows p [] = []
  where_rows p (x ∷ xs) = if p x then x ∷ where_rows p xs else where_rows p xs

  -- `SELECT … WHERE test`, then `fetchone()`
  abbrev pub first_row : (A → Bool) → List A → Option A
  first_row p [] = none
  first_row p (x ∷ xs) = if p x then some x else first_row p xs

  abbrev pub any_row : (A → Bool) → List A → Bool
  any_row p [] = false
  any_row p (x ∷ xs) = if p x then true else any_row p xs

  -- `UPDATE … SET f WHERE test`
  abbrev pub update_rows : (A → Bool) → (A → A) → List A → List A
  update_rows p f [] = []
  update_rows p f (x ∷ xs) = (if p x then f x else x) ∷ update_rows p f xs

  abbrev pub All {κ} : (A → Type κ) → List A → Type κ
  All P [] = Unit
  All P (x ∷ xs) = P x × All P xs

  pub length-update_rows :
      (p : A → Bool) (f : A → A) (xs : List A) → length (update_rows p f xs) ≡ length xs
  length-update_rows p f [] = refl
  length-update_rows p f (x ∷ xs) = omega (arith, length-update_rows p f xs)

  pub length-where_rows-le : (p : A → Bool) (xs : List A) → length (where_rows p xs) ≤ length xs
  length-where_rows-le p [] = omega arith
  length-where_rows-le p (x ∷ xs) = ground (arith, length-where_rows-le p xs)

  pub first_row-none : (p : A → Bool) (xs : List A) → any_row p xs ≡ false → first_row p xs ≡ none
  first_row-none p [] h = refl
  first_row-none p (x ∷ xs) h = ground (arith, first_row-none p xs)

  -- A row that `first_row` returns passes the test.
  pub first_row-passes : (p : A → Bool) (xs : List A) {x : A} → first_row p xs ≡ some x → p x ≡ true
  first_row-passes p [] h = cc
  first_row-passes p (y ∷ ys) h = elim (Bool-cases (p y)) [
    | inl yes_here ↦ ground (arith)
    | inr not_here ↦ first_row-passes p ys (rw not_here at h)
  ]

  pub some_eq : {x y : A} → some x ≡ some y → x ≡ y
  some_eq e = cc

  pub All-first_row :
      (P : A → Type 0) (p : A → Bool) (xs : List A) {x : A}
      → All P xs
      → first_row p xs ≡ some x
      → P x
  All-first_row P p [] h e = cc
  All-first_row P p (y ∷ ys) h e = elim (Bool-cases (p y)) [
    | inl this ↦ subst P (some_eq (rw this at e)) h.0
    | inr later ↦ All-first_row P p ys h.1 (rw later at e)
  ]

  -- What holds of every row after an update, from the rows that it changes and those it leaves.
  pub All-update_rows :
      (P : A → Type 0) (p : A → Bool) (f : A → A) (xs : List A)
      → ((x : A) → p x ≡ true → P (f x))
      → ((x : A) → p x ≡ false → P x)
      → All P (update_rows p f xs)
  All-update_rows P p f [] new old = tt
  All-update_rows P p f (x ∷ xs) new old = elim (Bool-cases (p x)) [
    | inl this ↦ rw this (new x this, All-update_rows P p f xs new old)
    | inr other ↦ rw other (old x other, All-update_rows P p f xs new old)
  ]

  -- What an update leaves true of every row, where its change does.
  pub update_rows-All :
      (P : A → Type 0) (p : A → Bool) (f : A → A) (xs : List A)
      → ((x : A) → P x → P (f x))
      → All P xs
      → All P (update_rows p f xs)
  update_rows-All P p f [] keep h = tt
  update_rows-All P p f (x ∷ xs) keep h = elim (Bool-cases (p x)) [
    | inl this ↦ rw this (keep x h.0, update_rows-All P p f xs keep h.1)
    | inr other ↦ rw other (h.0, update_rows-All P p f xs keep h.1)
  ]

  -- A read after an update of the rows that it looks for, where the update keeps what it tests.
  pub first_row-update_rows :
      (p : A → Bool) (f : A → A) (xs : List A) {x : A}
      → ((y : A) → p (f y) ≡ p y)
      → first_row p xs ≡ some x
      → first_row p (update_rows p f xs) ≡ some (f x)
  first_row-update_rows p f [] keeps found = cc
  first_row-update_rows p f (y ∷ ys) {x} keeps found = elim (Bool-cases (p y)) [
    | inl this ↦
        let same : y ≡ x = some_eq (rw this at found) in rw (this, keeps y, this, same) refl
    | inr other ↦ rw (other, other) (first_row-update_rows p f ys keeps (rw other at found))
  ]

  pub All-zip :
      (P Q R : A → Type 0) (xs : List A)
      → ((x : A) → P x → Q x → R x)
      → All P xs
      → All Q xs
      → All R xs
  All-zip P Q R [] f ps qs = tt
  All-zip P Q R (x ∷ xs) f ps qs = (f x ps.0 qs.0, All-zip P Q R xs f ps.1 qs.1)

  pub any_row-none : (p : A → Bool) (xs : List A) → any_row p xs ≡ false → All (λ x. p x ≡ false) xs
  any_row-none p [] h = tt
  any_row-none p (x ∷ xs) h = elim (Bool-cases (p x)) [
    | inl this ↦ cc
    | inr other ↦ (other, any_row-none p xs (rw other at h))
  ]

  -- An update that changes no row that is looked for, and leaves what is tested alone.
  pub first_row-update_other :
      (p q : A → Bool) (f : A → A) (xs : List A) {x : A}
      → ((y : A) → p (f y) ≡ p y)
      → q x ≡ false
      → first_row p xs ≡ some x
      → first_row p (update_rows q f xs) ≡ some x
  first_row-update_other p q f [] keeps left found = cc
  first_row-update_other p q f (y ∷ ys) {x} keeps left found = elim (Bool-cases (p y)) [
    | inl this ↦
        let same : y ≡ x = some_eq (rw this at found) in rw (same, left, (rw same at this)) refl
    | inr other ↦ elim (Bool-cases (q y)) [
      | inl changed ↦
          rw (changed, keeps y, other)
            (first_row-update_other p q f ys keeps left (rw other at found))
      | inr kept ↦ rw (kept, other) (first_row-update_other p q f ys keeps left (rw other at found))
    ]
  ]

  -- The same, where the change may use what is known of the rows that it meets.
  pub update_rows-All2 :
      (P Q : A → Type 0) (p : A → Bool) (f : A → A) (xs : List A)
      → ((x : A) → p x ≡ true → Q x → P x → P (f x))
      → All Q xs
      → All P xs
      → All P (update_rows p f xs)
  update_rows-All2 P Q p f [] keep known h = tt
  update_rows-All2 P Q p f (x ∷ xs) keep known h = elim (Bool-cases (p x)) [
    | inl this ↦ rw this (keep x this known.0 h.0, update_rows-All2 P Q p f xs keep known.1 h.1)
    | inr other ↦ rw other (h.0, update_rows-All2 P Q p f xs keep known.1 h.1)
  ]

  pub All-true : (xs : List A) → All (λ x. Unit {0}) xs
  All-true [] = tt
  All-true (x ∷ xs) = (tt, All-true xs)

  pub first_row-any :
      (p : A → Bool) (xs : List A) {x : A} → first_row p xs ≡ some x → any_row p xs ≡ true
  first_row-any p [] found = cc
  first_row-any p (y ∷ ys) found = elim (Bool-cases (p y)) [
    | inl this ↦ rw this refl
    | inr other ↦ rw other (first_row-any p ys (rw other at found))
  ]

  pub first_row-update_hit :
      (p q : A → Bool) (f : A → A) (xs : List A) {x : A}
      → ((y : A) → p (f y) ≡ p y)
      → q x ≡ true
      → first_row p xs ≡ some x
      → first_row p (update_rows q f xs) ≡ some (f x)
  first_row-update_hit p q f [] keeps hit found = cc
  first_row-update_hit p q f (y ∷ ys) {x} keeps hit found = elim (Bool-cases (p y)) [
    | inl this ↦
        let same : y ≡ x = some_eq (rw this at found) in
        rw (same, hit, keeps x, (rw same at this)) refl
    | inr other ↦ elim (Bool-cases (q y)) [
      | inl changed ↦
          rw (changed, keeps y, other) (first_row-update_hit p q f ys keeps hit (rw other at found))
      | inr kept ↦ rw (kept, other) (first_row-update_hit p q f ys keeps hit (rw other at found))
    ]
  ]
