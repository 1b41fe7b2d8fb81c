-- ===== src/Egress/Segments/Window.antt =====
-- No segment of a stream is lost, and its playlist is a window of the last segments.
use waterbus_rs.Base.{
  ℕ, ◌+◌, ◌-◌, ◌%◌, ◌^◌, ◌<◌, ◌≤◌, ◌≡◌, ◌∙◌, refl, sym, ap, Bool, String, some, List, [], ◌∷◌, ◌++◌,
  length, ltb, map, arith, Bool-cases, inl, inr, length-append, ◌⊎◌,
}
use mathlib.Core.List.{map-append, append_assoc}
use waterbus_rs.Egress.Segments.{
  Segment, UnreffedSegment, StreamState, Sample, unreffed, entry, trim, expire, trim_segments,
  add_segment, update_manifest, basename, new_sample, value_or,
}

-- The names of all segments of a stream: the removed ones, the ones that wait, and the listed ones.
abbrev pub names : StreamState → List String
names st = st.removed ++ (map (λ s. s.path) st.trimmed_segments ++ map (λ s. s.path) st.segments)

trim_names :
    (ss : List Segment) (trimmed : List UnreffedSegment) (n : ℕ)
    → (let (segments, waiting, _) = trim ss trimmed n in
        map (λ s. s.path) waiting ++ map (λ s. s.path) segments
        ≡ map (λ s. s.path) trimmed ++ map (λ s. s.path) ss)
unfolding trim
trim_names [] trimmed n = refl
trim_names (s ∷ ss) trimmed n =
    let rest = trim_names ss (trimmed ++ unreffed s ∷ []) ((n + 1) % 2 ^ 64) in
    let one = map-append (λ (u : UnreffedSegment). u.path) trimmed (unreffed s ∷ []) in
    let other =
      append_assoc (map (λ (u : UnreffedSegment). u.path) trimmed) (s.path ∷ [])
        (map (λ (x : Segment). x.path) ss) in
    elim (Bool-cases (ltb 5 (length (s ∷ ss)))) [
      | inl e ↦ ground (arith, e, rest, one, other)
      | inr e ↦ ground (arith, e)
    ]

trim_count :
    (ss : List Segment) (trimmed : List UnreffedSegment) (n : ℕ)
    → n + length ss < 2 ^ 64
    → (let (segments, _, sequence) = trim ss trimmed n in
        (length segments ≤ 5) × (sequence + length segments ≡ n + length ss))
unfolding trim
trim_count [] trimmed n small = (omega arith, omega arith)
trim_count (s ∷ ss) trimmed n small = elim (Bool-cases (ltb 5 (length (s ∷ ss)))) [
  | inl e ↦
      let next : (n + 1) % 2 ^ 64 ≡ n + 1 = omega (arith, small) in
      ground
        (arith, e, next, trim_count ss (trimmed ++ unreffed s ∷ []) (n + 1) (omega (arith, small)))
  | inr e ↦ ground (arith, e)
]

expire_names :
    (time : ℕ) (ss : List UnreffedSegment)
    → (let (gone, waiting) = expire time ss in
        gone ++ map (λ s. s.path) waiting ≡ map (λ s. s.path) ss)
unfolding expire
expire_names time [] = refl
expire_names time (s ∷ ss) = ground (arith, expire_names time ss)

List-cases : {A : Type 0} (xs : List A) → (xs ≡ []) ⊎ ((x : A) × (rest : List A) × (xs ≡ x ∷ rest))
List-cases [] = inl refl
List-cases (x ∷ rest) = inr (x, rest, refl)

trim_segments-names : (st : StreamState) → names (trim_segments st) ≡ names st
unfolding trim_segments
trim_segments-names st =
    let trimmed = trim st.segments st.trimmed_segments st.media_sequence in
    let same = trim_names st.segments st.trimmed_segments st.media_sequence in
    elim (List-cases trimmed.0) [
      | inl e ↦ ground (arith, e, same)
      | inr (s, rest, e) ↦
          let gone = expire_names s.date_time trimmed.1 in
          let (files, waiting) = expire s.date_time trimmed.1 in
          ground (
            arith,
            e,
            same,
            gone,
            append_assoc st.removed files (
                map (λ (u : UnreffedSegment). u.path) waiting
                ++ map (λ (x : Segment). x.path) trimmed.0),
            append_assoc files (map (λ (u : UnreffedSegment). u.path) waiting)
                (map (λ (x : Segment). x.path) trimmed.0),
          )
    ]

trim_segments-count :
    (st : StreamState)
    → st.media_sequence + length st.segments < 2 ^ 64
    → (length (trim_segments st).segments ≤ 5)
      × ((trim_segments st).media_sequence + length (trim_segments st).segments
          ≡ st.media_sequence + length st.segments)
unfolding trim_segments
trim_segments-count st small =
    let trimmed = trim st.segments st.trimmed_segments st.media_sequence in
    let counted = trim_count st.segments st.trimmed_segments st.media_sequence small in
    elim (List-cases trimmed.0) [
      | inl e ↦ ground (arith, e, counted)
      | inr (s, rest, e) ↦ ground (arith, e, counted)
    ]

listed_names : (ss : List Segment) → map (λ e. e.0) (map entry ss) ≡ map (λ s. s.path) ss
listed_names [] = refl
listed_names (s ∷ ss) = ap (λ rest. s.path ∷ rest) (listed_names ss)

length-listed : (ss : List Segment) → length (map entry ss) ≡ length ss
length-listed [] = refl
length-listed (s ∷ ss) = omega (arith, length-listed ss)

names-add_segment :
    (s : Segment) (st : StreamState) → names (add_segment s st) ≡ names st ++ s.path ∷ []
unfolding add_segment
names-add_segment s st =
    let waiting = map (λ (u : UnreffedSegment). u.path) st.trimmed_segments in
    let listed = map (λ (x : Segment). x.path) st.segments in
    ap (λ xs. st.removed ++ (waiting ++ xs))
      (map-append (λ (x : Segment). x.path) st.segments (s ∷ []))
    ∙ ap (λ xs. st.removed ++ xs) (sym (append_assoc waiting listed (s.path ∷ [])))
    ∙ sym (append_assoc st.removed (waiting ++ listed) (s.path ∷ []))

-- A new sample adds its segment as the last one and loses none: in order, the segments are those whose
-- files were removed, those whose files wait for their removal, and at most five that the playlist
-- lists. The sequence number of the playlist and the number of its segments make up all segments
-- there were, as long as these are fewer than 2 ^ 64.
pub window_moved :
    (decimal : ℕ → String) (is_video : Bool) (sample : Sample) (st : StreamState)
    → st.media_sequence + length st.segments + 1 < 2 ^ 64
    → (let (playlist, after) = new_sample decimal is_video sample st in
        (names after ≡ names st ++ basename decimal is_video st.segment_index ∷ [])
        × (map (λ e. e.0) playlist.segments ≡ map (λ s. s.path) after.segments)
        × (length playlist.segments ≤ 5)
        × (playlist.media_sequence + length playlist.segments
            ≡ st.media_sequence + length st.segments + 1))
unfolding new_sample update_manifest add_segment
window_moved decimal is_video sample st small =
    let start = value_or st.start_time sample.pts in
    let date = value_or st.start_date_time sample.pts_utc in
    let s : Segment = record {
      date_time = date + (sample.pts - start);
      duration = sample.duration;
      path = basename decimal is_video st.segment_index;
    } in
    let st' : StreamState = record st {
      segment_index = (st.segment_index + 1) % 2 ^ 32;
      start_time = some start;
      start_date_time = some date;
    } in
    let full = add_segment s st' in
    let more = length-append st.segments (s ∷ []) in
    let counted = trim_segments-count full (omega (arith, small, more)) in
    let listed = length-listed (trim_segments full).segments in
    (
      trim_segments-names full ∙ names-add_segment s st',
      listed_names (trim_segments full).segments,
      omega (arith, counted.0, listed),
      omega (arith, counted.1, listed, more),
    )
