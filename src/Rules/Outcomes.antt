-- ===== src/Rules/Outcomes.antt =====
-- Facts about what a fallible step gives.
use coversational_algo_tradi.Rules.Spec.{and_then}
use coversational_algo_tradi.Prelude.{Option, none, some, subst, ◌≡◌}
use mathlib.Core.Option

module _ {A : Type 0} where
  -- A fact about the value, where there is one.
  abbrev pub OnSome : (A → Type 0) → Option A → Type 0
  OnSome P none = Unit
  OnSome P (some a) = P a

  pub of_some : (P : A → Type 0) {o : Option A} {a : A} → o ≡ some a → OnSome P o → P a
  of_some P e h = subst (OnSome P) e h

module _ {A B : Type 0} (P : B → Type 0) where
  pub OnSome-and_then :
      (o : Option A) (f : A → Option B) → ((a : A) → OnSome P (f a)) → OnSome P (and_then o f)
  OnSome-and_then none f h = tt
  OnSome-and_then (some a) f h = h a

  pub OnSome-map : (o : Option A) (f : A → B) → ((a : A) → P (f a)) → OnSome P (Option.map f o)
  OnSome-map none f h = tt
  OnSome-map (some a) f h = h a

  pub OnSome-map_of :
      (Q : A → Type 0) (o : Option A) (f : A → B)
      → OnSome Q o
      → ((a : A) → Q a → P (f a))
      → OnSome P (Option.map f o)
  OnSome-map_of Q none f known h = tt
  OnSome-map_of Q (some a) f known h = h a known

  pub OnSome-and_then_of :
      (Q : A → Type 0) (o : Option A) (f : A → Option B)
      → OnSome Q o
      → ((a : A) → Q a → OnSome P (f a))
      → OnSome P (and_then o f)
  OnSome-and_then_of Q none f known h = tt
  OnSome-and_then_of Q (some a) f known h = h a known
