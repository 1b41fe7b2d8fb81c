-- ===== src/Egress/Segments.antt =====
-- segment.rs and playlist.rs: the window of the segments of a stream.
pub mod Window
use Prim.Native.String.{◌++◌ as str_append}
use waterbus_rs.Base.{
  ℕ, zero, suc, ◌+◌, ◌-◌, ◌*◌, ◌%◌, ◌^◌, Bool, true, false, String, Option, none, some, List, [],
  ◌∷◌, ◌++◌, length, ltb, if◌then◌else◌, map,
}

pub record Segment : Type 0 where
  pub date_time : ℕ
  pub duration : ℕ
  pub path : String

pub record UnreffedSegment : Type 0 where
  pub removal_time : ℕ
  pub path : String

-- `removed` are the names of the files that were removed, in their order.
pub record StreamState : Type 0 where
  pub segments : List Segment
  pub trimmed_segments : List UnreffedSegment
  pub start_date_time : Option ℕ
  pub start_time : Option ℕ
  pub media_sequence : ℕ
  pub segment_index : ℕ
  pub removed : List String

unfoldable pub new_stream : StreamState
new_stream = record {
  segments = [];
  trimmed_segments = [];
  start_date_time = none;
  start_time = none;
  media_sequence = 0;
  segment_index = 0;
  removed = [];
}

abbrev pub second : ℕ
second = 1000000000

abbrev pub unreffed : Segment → UnreffedSegment
unreffed s = record { removal_time = s.date_time + 20 * second; path = s.path }

-- The first loop of `trim_segments`, which leaves five segments.
unfoldable pub trim :
    List Segment → List UnreffedSegment → ℕ → List Segment × List UnreffedSegment × ℕ
trim [] trimmed sequence = ([], trimmed, sequence)
trim (s ∷ ss) trimmed sequence =
    let rest = trim ss (trimmed ++ unreffed s ∷ []) ((sequence + 1) % 2 ^ 64) in
    if ltb 5 (length (s ∷ ss)) then rest else (s ∷ ss, trimmed, sequence)

-- The second loop: the files that are removed before the time, and the segments that still wait.
unfoldable pub expire : ℕ → List UnreffedSegment → List String × List UnreffedSegment
expire time [] = ([], [])
expire time (s ∷ ss) =
    let (gone, waiting) = expire time ss in
    if ltb s.removal_time time then (s.path ∷ gone, waiting) else ([], s ∷ ss)

-- There is a segment whenever one was trimmed: the code unwraps the front.
unfoldable pub trim_segments : StreamState → StreamState
unfolding expire
trim_segments st =
    let (segments, trimmed, sequence) = trim st.segments st.trimmed_segments st.media_sequence in
    let st' : StreamState = record st {
      segments = segments;
      trimmed_segments = trimmed;
      media_sequence = sequence;
    } in
    elim segments [
      | [] ↦ st'
      | s ∷ _ ↦
          let (gone, waiting) = expire s.date_time trimmed in
          record st' { trimmed_segments = waiting; removed = st.removed ++ gone }
    ]

unfoldable pub add_segment : Segment → StreamState → StreamState
add_segment s st = record st { segments = st.segments ++ s ∷ [] }

-- What `update_manifest` writes: the sequence number and the segments; the first one has its time.
pub record Playlist : Type 0 where
  pub media_sequence : ℕ
  pub segments : List (String × ℕ)
  pub program_date_time : Option ℕ

abbrev pub entry : Segment → String × ℕ
entry s = (s.path, s.duration)

unfoldable pub update_manifest : StreamState → Playlist × StreamState
update_manifest st =
    let trimmed = trim_segments st in
    (
      record {
        media_sequence = trimmed.media_sequence;
        segments = map entry trimmed.segments;
        program_date_time = elim trimmed.segments [ [] ↦ none | s ∷ _ ↦ some s.date_time ];
      },
      trimmed,
    )

-- A sample with media, after its header: the running time of its first buffer, its duration, and the
-- time at which this buffer was presented.
pub record Sample : Type 0 where
  pub pts : ℕ
  pub duration : ℕ
  pub pts_utc : ℕ

abbrev pub value_or : Option ℕ → ℕ → ℕ
value_or none n = n
value_or (some m) n = m

module _ (decimal : ℕ → String) where
  unfoldable pub basename : Bool → ℕ → String
  basename is_video index =
      str_append (str_append "segment_" (str_append (decimal index) "."))
        (if is_video then "cmfv" else "cmfa")

  -- `new_sample` of `setup_appsink`, where the clock of the samples does not go back before the first:
  -- the code panics otherwise. A sample that is only a header changes nothing and has no case here.
  unfoldable pub new_sample : Bool → Sample → StreamState → Playlist × StreamState
  new_sample is_video sample st =
      let start = value_or st.start_time sample.pts in
      let date = value_or st.start_date_time sample.pts_utc in
      update_manifest (
        add_segment
          (record {
            date_time = date + (sample.pts - start);
            duration = sample.duration;
            path = basename is_video st.segment_index;
          })
          (record st {
            segment_index = (st.segment_index + 1) % 2 ^ 32;
            start_time = some start;
            start_date_time = some date;
          }))
