-- ===== src/Signalling/Tables/Rows.antt =====
-- What a query finds in a table after an update.
use mathlib.Core.Option
use waterbus_rs.Base.{◌≡◌, refl, Bool, true, some, List, [], ◌∷◌, arith, Bool-cases, inl, inr}
use waterbus_rs.Signalling.Tables.{find, update_where}

module _ {A : Type 0} (p : A → Bool) where
  pub find-passes : (xs : List A) (x : A) → find p xs ≡ some x → p x ≡ true
  unfolding find
  find-passes [] x found = ground (arith, found)
  find-passes (y ∷ ys) x found = elim (Bool-cases (p y)) [
    | inl e ↦ ground (arith, e, found)
    | inr e ↦ ground (arith, e, found, find-passes ys x)
  ]

  -- An update of the rows that a query asks for, which leaves them such rows.
  pub find-update_where :
      (f : A → A) (xs : List A)
      → ((x : A) → p (f x) ≡ p x)
      → find p (update_where p f xs) ≡ Option.map f (find p xs)
  unfolding find update_where
  find-update_where f [] same = refl
  find-update_where f (y ∷ ys) same = elim (Bool-cases (p y)) [
    | inl e ↦ rw (e, same y, e) refl
    | inr e ↦ rw (e, e) (find-update_where f ys same)
  ]

  -- An update of other rows, to which the row that a query finds belongs.
  pub find-updated :
      (q : A → Bool) (f : A → A) (xs : List A) (x : A)
      → ((y : A) → p (f y) ≡ p y)
      → find p xs ≡ some x
      → q x ≡ true
      → find p (update_where q f xs) ≡ some (f x)
  unfolding find update_where
  find-updated q f [] x same found belongs = absurd (ground (arith, found))
  find-updated q f (y ∷ ys) x same found belongs = elim (Bool-cases (p y)) [
    | inl e ↦ ground (arith, e, found, belongs, same y)
    | inr e ↦
        let later = find-updated q f ys x same in
        elim (Bool-cases (q y)) [
          | inl h ↦ ground (arith, e, h, found, belongs, same y, later)
          | inr h ↦ ground (arith, e, h, found, belongs, later)
        ]
  ]

  -- A row that one query finds, another query finds too, or a row before it.
  pub find-other :
      (q : A → Bool) (xs : List A) (x : A)
      → find p xs ≡ some x
      → q x ≡ true
      → (y : A) × (find q xs ≡ some y)
  unfolding find
  find-other q [] x found belongs = absurd (ground (arith, found))
  find-other q (y ∷ ys) x found belongs = elim (Bool-cases (q y)) [
    | inl h ↦ (y, rw h refl)
    | inr h ↦
        let later : find p ys ≡ some x = elim (Bool-cases (p y)) [
          | inl e ↦ ground (arith, e, h, found, belongs)
          | inr e ↦ ground (arith, e, found)
        ] in
        let (z, there) = find-other q ys x later belongs in (z, rw h there)
  ]
