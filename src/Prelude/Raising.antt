-- ===== src/Prelude/Raising.antt =====
-- Methods over a mutable store that may raise. What was written before a raise stays written, so
-- the store comes back beside an exception too; a transaction takes its writes back.
use mathlib.Core.Path.{◌≡◌, refl, subst}
use mathlib.Core.Bool.{Bool, true, false}
use mathlib.Core.Option.{Option, none, some}
use coversational_algo_tradi.Prelude.Tests.{if◌then◌else◌}

pub data Result (E A : Type 0) : Type 0 where
  ok : A → Result E A
  err : E → Result E A

abbrev pub Method : Type 0 → Type 0 → Type 0 → Type 0
Method S E A = S → Result E A × S

module _ {S E A : Type 0} where
  abbrev pub pure : A → Method S E A
  pure a s = (ok a, s)

  abbrev pub raise : E → Method S E A
  raise e s = (err e, s)

  abbrev pub gets : (S → A) → Method S E A
  gets f s = (ok (f s), s)

  abbrev pub or_raise : Option A → E → Method S E A
  or_raise none e s = (err e, s)
  or_raise (some a) e s = (ok a, s)

  -- `BEGIN TRANSACTION … COMMIT`, with `ROLLBACK` where the body raises.
  abbrev rolled_back : S → Result E A × S → Result E A × S
  rolled_back s (ok a, t) = (ok a, t)
  rolled_back s (err e, t) = (err e, s)

  abbrev pub transaction : Method S E A → Method S E A
  transaction m s = rolled_back s (m s)

module _ {S E : Type 0} where
  abbrev pub modify : (S → S) → Method S E (Unit {0})
  modify f s = (ok tt, f s)

  abbrev pub raise_if : Bool → E → Method S E (Unit {0})
  raise_if c e s = (if c then err e else ok tt, s)

module _ {S E A B : Type 0} where
  abbrev continue : Result E A → (A → Method S E B) → Method S E B
  continue (ok a) f s = f a s
  continue (err e) f s = (err e, s)

  infixl 5 ◌>>=◌ ◌>>◌
  abbrev pub ◌>>=◌ : Method S E A → (A → Method S E B) → Method S E B
  ◌>>=◌ m f s = continue (m s).0 f (m s).1

  abbrev pub ◌>>◌ : Method S E A → Method S E B → Method S E B
  m >> n = m >>= λ _. n

-- A method keeps a property of the store, whether it returns or raises.
abbrev pub Keeps : {S E A : Type 0} → (S → Type 0) → Method S E A → Type 0
Keeps {S} P m = (s : S) → P s → P (m s).1

module _ {S E A B : Type 0} (P : S → Type 0) where
  Keeps-continue :
      (r : Result E A) (f : A → Method S E B) (s : S)
      → ((a : A) → Keeps P (f a))
      → P s
      → P (continue r f s).1
  Keeps-continue (ok a) f s keep h = keep a s h
  Keeps-continue (err e) f s keep h = h

  pub Keeps-bind :
      (m : Method S E A) (f : A → Method S E B)
      → Keeps P m
      → ((a : A) → Keeps P (f a))
      → Keeps P (m >>= f)
  Keeps-bind m f first rest s h = Keeps-continue (m s).0 f (m s).1 rest (first s h)

module _ {S E A : Type 0} (P : S → Type 0) where
  pub Keeps-or_raise : (o : Option A) (e : E) → Keeps P (or_raise o e)
  Keeps-or_raise none e s h = h
  Keeps-or_raise (some a) e s h = h

  pub Keeps-if :
      (b : Bool) (m n : Method S E A) → Keeps P m → Keeps P n → Keeps P (if b then m else n)
  Keeps-if true m n first second = first
  Keeps-if false m n first second = second

module _ {S E A : Type 0} where
  -- What holds of the value and the store that a method returned.
  abbrev pub Returned : (A → S → Type 0) → Result E A × S → Type 0
  Returned P (ok a, s) = P a s
  Returned P (err e, s) = Unit

  -- A fact about what a call computes to is a fact about what it is known to return.
  pub of_returned :
      (P : A → S → Type 0) {r : Result E A × S} {a : A} {s : S}
      → r ≡ (ok a, s)
      → Returned P r
      → P a s
  of_returned P e h = subst (Returned P) e h

module _ {S E A B : Type 0} (P : B → S → Type 0) (f : A → Method S E B) where
  Returned-pair :
      (x : Result E A × S)
      → Returned (λ a t. Returned P (f a t)) x
      → Returned P (continue x.0 f x.1)
  Returned-pair (ok a, t) h = h
  Returned-pair (err e, t) h = tt

  -- What two steps return, from what the first returns.
  pub Returned-bind :
      (m : Method S E A) (s : S)
      → Returned (λ a t. Returned P (f a t)) (m s)
      → Returned P ((m >>= f) s)
  Returned-bind m s = Returned-pair (m s)

module _ {S E A : Type 0} where
  pub Returned-map :
      {P Q : A → S → Type 0} (x : Result E A × S)
      → ((a : A) (t : S) → P a t → Q a t)
      → Returned P x
      → Returned Q x
  Returned-map (ok a, t) f h = f a t h
  Returned-map (err e, t) f h = tt

  pub Returned-all :
      {P : A → S → Type 0} (x : Result E A × S) → ((a : A) (t : S) → P a t) → Returned P x
  Returned-all (ok a, t) h = h a t
  Returned-all (err e, t) h = tt

module _ {S E A : Type 0} (P : S → Type 0) where
  rolled_back_store :
      (s : S) (x : Result E A × S) → P s → Returned (λ a t. P t) x → P (rolled_back s x).1
  rolled_back_store s (ok a, t) before after = after
  rolled_back_store s (err e, t) before after = before

  -- The store after a transaction: that before it, or what its body returned.
  pub transaction_store :
      (m : Method S E A) (s : S) → P s → Returned (λ a t. P t) (m s) → P (transaction m s).1
  transaction_store m s = rolled_back_store s (m s)

module _ {S E A : Type 0} (P : A → S → Type 0) where
  rolled_back-Returned : (s : S) (x : Result E A × S) → Returned P x → Returned P (rolled_back s x)
  rolled_back-Returned s (ok a, t) h = h
  rolled_back-Returned s (err e, t) h = h

  -- What a transaction returns is what its body returned.
  pub transaction-Returned :
      (m : Method S E A) (s : S) → Returned P (m s) → Returned P (transaction m s)
  transaction-Returned m s = rolled_back-Returned s (m s)

module _ {S E B : Type 0} (P : B → S → Type 0) where
  -- What a method returns, past a test and past a value that may be missing.
  pub Returned-raise_if :
      (c : Bool) (e : E) (m : Method S E B) (s : S)
      → (c ≡ false → Returned P (m s))
      → Returned P ((raise_if c e >> m) s)
  Returned-raise_if true e m s h = tt
  Returned-raise_if false e m s h = h refl

  pub Returned-or_raise :
      {A : Type 0} (o : Option A) (e : E) (f : A → Method S E B) (s : S)
      → ((a : A) → o ≡ some a → Returned P (f a s))
      → Returned P ((or_raise o e >>= f) s)
  Returned-or_raise none e f s h = tt
  Returned-or_raise (some a) e f s h = h a refl

module _ {S E A : Type 0} where
  -- What follows from two ways to know what a method returned.
  pub ok_some-inj :
      {a b : A} {s t : S}
      → ◌≡◌ {A = Result E (Option A) × S} (ok (some a), s) (ok (some b), t)
      → (a ≡ b) × (s ≡ t)
  ok_some-inj h = (cc, cc)

  pub ok_none-absurd :
      {b : A} {s t : S} {C : Type 0}
      → ◌≡◌ {A = Result E (Option A) × S} (ok none, s) (ok (some b), t)
      → C
  ok_none-absurd h = cc
