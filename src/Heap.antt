-- ===== src/Heap.antt =====
-- Shared objects. What the program holds in an `Arc` with interior mutability is a cell of a heap,
-- and a clone of the `Arc` is the same reference.
use mathlib.Core.Option
use waterbus_rs.Base.{
  Option-cases, inl, inr, ℕ, any, ◌≡◌, ◌<◌, refl, ap, Option, some, List, [], ◌∷◌, ◌++◌, arith,
  length, get_elem?, set, zero, suc, ◌==◌, if◌then◌else◌,
}

abbrev pub Ref : Type 0
Ref = ℕ

module _ {ℓ} {A : Type ℓ} where
  -- `Arc::new`
  unfoldable pub alloc : A → List A → Ref × List A
  alloc a heap = (length heap, heap ++ a ∷ [])

  unfoldable pub read : Ref → List A → Option A
  read r heap = get_elem? heap r

  unfoldable pub write : Ref → A → List A → List A
  write r a heap = set heap r a

  -- `write()` on a lock, and a change of what it guards.
  unfoldable pub modify_at : Ref → (A → A) → List A → List A
  modify_at r f [] = []
  modify_at zero f (a ∷ heap) = f a ∷ heap
  modify_at (suc r) f (a ∷ heap) = a ∷ modify_at r f heap

  get_elem?-append :
      (xs ys : List A) (i : ℕ) → i < length xs → get_elem? (xs ++ ys) i ≡ get_elem? xs i
  get_elem?-append [] ys i h = elim h [ ]
  get_elem?-append (x ∷ xs) ys zero h = refl
  get_elem?-append (x ∷ xs) ys (suc i) h = get_elem?-append xs ys i (omega arith)

  get_elem?-length : (xs : List A) (a : A) → get_elem? (xs ++ a ∷ []) (length xs) ≡ some a
  get_elem?-length [] a = refl
  get_elem?-length (x ∷ xs) a = get_elem?-length xs a

  -- A new object is read back, and the objects that were there keep their values.
  pub read-alloc : (a : A) (heap : List A) → read (alloc a heap).0 (alloc a heap).1 ≡ some a
  unfolding read alloc
  read-alloc a heap = get_elem?-length heap a

  pub read-alloc_old :
      (a : A) (heap : List A) (r : Ref) → r < length heap → read r (alloc a heap).1 ≡ read r heap
  unfolding read alloc
  read-alloc_old a heap r h = get_elem?-append heap (a ∷ []) r h

  pub read-modify_at :
      (r i : Ref) (f : A → A) (heap : List A)
      → read i (modify_at r f heap) ≡ (if r == i then Option.map f (read i heap) else read i heap)
  unfolding read modify_at
  read-modify_at r i f [] = ground arith
  read-modify_at zero zero f (a ∷ heap) = refl
  read-modify_at zero (suc i) f (a ∷ heap) = ground arith
  read-modify_at (suc r) zero f (a ∷ heap) = ground arith
  read-modify_at (suc r) (suc i) f (a ∷ heap) = ground (arith, read-modify_at r i f heap)

  pub length-modify_at :
      (r : Ref) (f : A → A) (heap : List A) → length (modify_at r f heap) ≡ length heap
  unfolding modify_at
  length-modify_at r f [] = refl
  length-modify_at zero f (a ∷ heap) = refl
  length-modify_at (suc r) f (a ∷ heap) = ap suc (length-modify_at r f heap)

-- A change of several objects, one after the other.
module _ {ℓ} {A : Type ℓ} where
  unfoldable pub modify_all : (A → A) → List Ref → List A → List A
  modify_all f [] heap = heap
  modify_all f (r ∷ rs) heap = modify_all f rs (modify_at r f heap)

  -- A change that is not seen to happen twice reaches just the objects that are named.
  pub read-modify_all :
      (f : A → A) (rs : List Ref) (i : Ref) (heap : List A)
      → ((a : A) → f (f a) ≡ f a)
      → read i (modify_all f rs heap)
        ≡ (if any (λ r. r == i) rs then Option.map f (read i heap) else read i heap)
  unfolding modify_all
  read-modify_all f [] i heap h = refl
  read-modify_all f (r ∷ rs) i heap h = elim (Option-cases (read i heap)) [
    | inl e ↦
        ground (arith, e, read-modify_all f rs i (modify_at r f heap) h, read-modify_at r i f heap)
    | inr (a, e) ↦
        ground
          (arith, e, h a, read-modify_all f rs i (modify_at r f heap) h, read-modify_at r i f heap)
  ]
