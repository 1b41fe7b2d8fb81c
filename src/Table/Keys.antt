-- ===== src/Table/Keys.antt =====
-- Maps whose keys are distinct, the removal of several keys, and updates of all values.
use waterbus_rs.Base.{◌≡◌, refl, Bool, none, List, [], ◌∷◌, arith, if◌then◌else◌, EqTest, any}
use waterbus_rs.Table.{Table, get, insert, remove, get-insert, get-remove}

abbrev pub mem_key {ℓ} : {K : Type ℓ} ⦃e : EqTest K⦄ → K → List K → Bool
mem_key ⦃e⦄ k ks = any (λ j. e.beq j k) ks

module _ {ℓ κ} {K : Type ℓ} {V : Type κ} ⦃e : EqTest K⦄ where
  -- Each key has one entry.
  abbrev pub IsMap : Table K V → Type κ
  IsMap [] = Unit
  IsMap ((k, v) ∷ m) = (get k m ≡ none) × IsMap m

  pub insert-IsMap : (k : K) (v : V) (m : Table K V) → IsMap m → IsMap (insert k v m)
  unfolding insert
  insert-IsMap k v [] h = (unfold get in refl, tt)
  insert-IsMap k v ((j, w) ∷ m) h =
      ground (arith, insert-IsMap k v m h.1, get-insert k j v m, e.beq_iff j k, e.beq_iff k j)

  pub remove-IsMap : (k : K) (m : Table K V) → IsMap m → IsMap (remove k m)
  unfolding remove
  remove-IsMap k [] h = tt
  remove-IsMap k ((j, w) ∷ m) h = ground (arith, remove-IsMap k m h.1, get-remove k j m)

  unfoldable pub remove_all : List K → Table K V → Table K V
  remove_all [] m = m
  remove_all (k ∷ ks) m = remove_all ks (remove k m)

  pub get-remove_all :
      (ks : List K) (j : K) (m : Table K V)
      → get j (remove_all ks m) ≡ (if mem_key j ks then none else get j m)
  unfolding remove_all
  get-remove_all [] j m = refl
  get-remove_all (k ∷ ks) j m = ground (arith, get-remove_all ks j (remove k m), get-remove k j m)

  pub remove_all-IsMap : (ks : List K) (m : Table K V) → IsMap m → IsMap (remove_all ks m)
  unfolding remove_all
  remove_all-IsMap [] m h = h
  remove_all-IsMap (k ∷ ks) m h = remove_all-IsMap ks (remove k m) (remove-IsMap k m h)
