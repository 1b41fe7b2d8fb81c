-- ===== src/Signalling/Rooms/Codes.antt =====
-- The code of a new room, of signalling/src/features/room/service.rs.
use waterbus_rs.Base.{
  ℕ, zero, suc, ◌+◌, ◌<◌, ◌≤◌, ◌≡◌, refl, Bool, true, false, String, Result, ok, err, arith, ◌∙◌,
  subst, sym, ◌==◌, Bool-cases, inl, inr, ◌⊎◌,
}
use waterbus_rs.Signalling.Models.{RoomError, unexpected_error}
use waterbus_rs.Signalling.Repositories.{RoomRepository, UserRepository}
use waterbus_rs.Signalling.Rooms.{generate_from, generate_unique_room_code}

module _ {World : Type 0} (rooms : RoomRepository World) (users : UserRepository World) where
  -- What a search of `attempts` draws from the n-th on has found: a code of one of them that no room
  -- has, or an error.
  abbrev pub IsFound : (ℕ → String) → ℕ → ℕ → World → Result RoomError String → Type 0
  IsFound draw n attempts w (ok code) =
      (i : ℕ) × (n ≤ i)
      × (i < n + attempts)
      × (draw i ≡ code)
      × (rooms.exists_code code w ≡ ok false)
  IsFound draw n attempts w (err e) = Unit

  IsFound-later :
      (draw : ℕ → String) (n attempts : ℕ) (w : World) (r : Result RoomError String)
      → IsFound draw (suc n) attempts w r
      → IsFound draw n (suc attempts) w r
  IsFound-later draw n attempts w (ok code) (i, least, most, drawn, free) =
      (i, omega arith, omega arith, drawn, free)
  IsFound-later draw n attempts w (err e) found = tt

  exists-cases :
      (r : Result RoomError Bool) → (r ≡ ok true) ⊎ (r ≡ ok false) ⊎ ((e : RoomError) × (r ≡ err e))
  exists-cases (ok true) = inl refl
  exists-cases (ok false) = inr (inl refl)
  exists-cases (err e) = inr (inr (e, refl))

  search_free :
      (draw : ℕ → String) (n attempts : ℕ) (w : World)
      → rooms.exists_code (draw n) w ≡ ok false
      → generate_from rooms users draw n (suc attempts) w ≡ (ok (draw n), w)
  unfolding generate_from
  search_free draw n attempts w free = ground (arith, free)

  search_taken :
      (draw : ℕ → String) (n attempts : ℕ) (w : World)
      → rooms.exists_code (draw n) w ≡ ok true
      → generate_from rooms users draw n (suc attempts) w
        ≡ generate_from rooms users draw (suc n) attempts w
  unfolding generate_from
  search_taken draw n attempts w taken = ground (arith, taken)

  search_failed :
      (draw : ℕ → String) (n attempts : ℕ) (w : World) (e : RoomError)
      → rooms.exists_code (draw n) w ≡ err e
      → generate_from rooms users draw n (suc attempts) w
        ≡ (err (unexpected_error "Failed to check room code"), w)
  unfolding generate_from
  search_failed draw n attempts w e failed = ground (arith, failed)

  search-IsFound :
      (draw : ℕ → String) (n attempts : ℕ) (w : World)
      → IsFound draw n attempts w (generate_from rooms users draw n attempts w).0
        × ((generate_from rooms users draw n attempts w).1 ≡ w)
  search-IsFound draw n zero w = unfold generate_from in (tt, refl)
  search-IsFound draw n (suc attempts) w = elim (exists-cases (rooms.exists_code (draw n) w)) [
    | inl taken ↦
        let (found, same) = search-IsFound draw (suc n) attempts w in
        rw (search_taken draw n attempts w taken) (
          IsFound-later draw n attempts w (generate_from rooms users draw (suc n) attempts w).0
              found,
          same,
        )
    | inr (inl free) ↦
        rw (search_free draw n attempts w free) ((n, omega arith, omega arith, refl, free), refl)
    | inr (inr (e, failed)) ↦ rw (search_failed draw n attempts w e failed) (tt, refl)
  ]

  -- The code that is generated is one of the codes drawn, of which there are at most as many as
  -- attempts, and no room has it; nothing is written.
  pub generated-IsFound :
      (draw : ℕ → String) (max_attempts : ℕ) (w : World)
      → IsFound draw 0 max_attempts w (generate_unique_room_code rooms users draw max_attempts w).0
        × ((generate_unique_room_code rooms users draw max_attempts w).1 ≡ w)
  unfolding generate_unique_room_code
  generated-IsFound draw max_attempts w = search-IsFound draw 0 max_attempts w

  search_finds :
      (draw : ℕ → String) (n i attempts : ℕ) (w : World)
      → n ≤ i
      → i < n + attempts
      → ((j : ℕ) → n ≤ j → j < i → rooms.exists_code (draw j) w ≡ ok true)
      → rooms.exists_code (draw i) w ≡ ok false
      → generate_from rooms users draw n attempts w ≡ (ok (draw i), w)
  search_finds draw n i zero w least few taken free = absurd (omega arith)
  search_finds draw n i (suc attempts) w least few taken free = elim (Bool-cases (n == i)) [
    | inl e ↦
        let same : i ≡ n = ground (arith, e) in
        subst (λ k. generate_from rooms users draw n (suc attempts) w ≡ (ok (draw k), w)) (sym same)
          (search_free draw n attempts w
            (subst (λ k. rooms.exists_code (draw k) w ≡ ok false) same free))
    | inr e ↦
        let less : n < i = ground (arith, e) in
        search_taken draw n attempts w (taken n (omega arith) less)
        ∙ search_finds draw (suc n) i attempts w less (omega arith)
            (λ j from to. taken j (omega arith) to) free
  ]

  -- As soon as one of the codes that may be drawn is free, and the ones before are taken, it is the
  -- code that is generated: a code is found whenever the attempts suffice.
  pub free_code_generated :
      (draw : ℕ → String) (k max_attempts : ℕ) (w : World)
      → k < max_attempts
      → ((j : ℕ) → j < k → rooms.exists_code (draw j) w ≡ ok true)
      → rooms.exists_code (draw k) w ≡ ok false
      → generate_unique_room_code rooms users draw max_attempts w ≡ (ok (draw k), w)
  unfolding generate_unique_room_code
  free_code_generated draw k max_attempts w few taken free =
      search_finds draw 0 k max_attempts w (omega arith) (omega arith) (λ j from to. taken j to)
        free
