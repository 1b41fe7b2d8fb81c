-- ===== src/Action.antt =====
-- Methods that may fail: the state comes back after an error too, since what was written stays
-- written. A `do` block of actions is a chain of `?`.
use waterbus_rs.Base.{Bool, true, false, Option, none, some, Result, ok, err}

abbrev pub Action : Type 0 → Type 0 → Type 0 → Type 0
Action S E A = S → Result E A × S

module _ {S E A : Type 0} where
  abbrev pub pure : A → Action S E A
  pure a s = (ok a, s)

  abbrev pub fail : E → Action S E A
  fail e s = (err e, s)

  abbrev pub gets : (S → A) → Action S E A
  gets f s = (ok (f s), s)

  -- `ok_or`, and `map_err(|_| e)` where `none` stands for the error.
  abbrev pub or_fail : Option A → E → Action S E A
  or_fail none e s = (err e, s)
  or_fail (some a) e s = (ok a, s)

  -- A call that only reads.
  abbrev pub query : (S → Result E A) → Action S E A
  query f s = (f s, s)

  -- A call that may fail and changes the state.
  abbrev pub attempt : (S → Option A × S) → E → Action S E A
  attempt f e s = let (o, s') = f s in elim o [ none ↦ (err e, s') | some a ↦ (ok a, s') ]

module _ {S E : Type 0} where
  abbrev pub modify : (S → S) → Action S E (Unit {0})
  modify f s = (ok tt, f s)

  -- A call that answers whether it was done.
  abbrev pub ensure : (S → Bool × S) → E → Action S E (Unit {0})
  ensure f e s = let (b, s') = f s in elim b [ true ↦ (ok tt, s') | false ↦ (err e, s') ]

-- `map_err` with a function that ignores its argument.
abbrev pub or_else : {S E F A : Type 0} → Action S E A → F → Action S F A
or_else m e s = let (r, s') = m s in elim r [ ok a ↦ (ok a, s') | err _ ↦ (err e, s') ]

module _ {S E A B : Type 0} where
  infixl 5 ◌>>=◌ ◌>>◌
  abbrev pub ◌>>=◌ : Action S E A → (A → Action S E B) → Action S E B
  ◌>>=◌ m f s = let (r, s') = m s in elim r [ ok a ↦ f a s' | err e ↦ (err e, s') ]

  abbrev pub ◌>>◌ : Action S E A → Action S E B → Action S E B
  ◌>>◌ m k s = let (r, s') = m s in elim r [ ok a ↦ k s' | err e ↦ (err e, s') ]
