-- ===== src/Egress/Master.antt =====
-- state.rs and cloud_master_playlist.rs: the master playlist, which is written once all streams have
-- told their codec. A playlist is a record here, and `written` is the file at `path`.
pub mod Writing
use Prim.Native.String.{◌++◌ as str_append, compare}
use text.Mathlib.Text.{is_lt}
use waterbus_rs.Base.{
  ℕ, ◌+◌, Bool, true, false, not, ◌||◌, String, string_eq, str_eq, Option, none, some, Result, ok,
  err, List, [], ◌∷◌, ◌++◌, length, ltb, if◌then◌else◌, map,
}

pub record VideoStream : Type 0 where
  pub name : String
  pub bitrate : ℕ
  pub width : ℕ
  pub height : ℕ
  pub codec : String

pub record AudioStream : Type 0 where
  pub name : String
  pub lang : String
  pub is_default : Bool
  pub wave : String

-- The fields of crate `m3u8_rs` that are set to something of the state.
pub record VariantStream : Type 0 where
  pub uri : String
  pub bandwidth : ℕ
  pub codecs : String
  pub width : ℕ
  pub height : ℕ

pub record AlternativeMedia : Type 0 where
  pub uri : String
  pub language : String
  pub name : String
  pub is_default : Bool

pub record MasterPlaylist : Type 0 where
  pub variants : List VariantStream
  pub alternatives : List AlternativeMedia

pub record State : Type 0 where
  pub video_streams : List VideoStream
  pub audio_streams : List AudioStream
  pub all_mimes : List String
  pub path : String
  pub wrote_manifest : Bool
  pub written : Option MasterPlaylist

unfoldable pub insert_mime : String → List String → List String
insert_mime m [] = m ∷ []
insert_mime m (x ∷ xs) =
    let rest = insert_mime m xs in if is_lt (compare x m) then x ∷ rest else m ∷ x ∷ xs

-- `sort`
unfoldable pub sort_mimes : List String → List String
unfolding insert_mime
sort_mimes [] = []
sort_mimes (m ∷ ms) = insert_mime m (sort_mimes ms)

-- `dedup`, of what follows a name.
unfoldable pub dedup_after : String → List String → List String
dedup_after m [] = []
dedup_after m (x ∷ xs) =
    let rest = dedup_after x xs in if str_eq x m then dedup_after m xs else x ∷ rest

unfoldable pub dedup : List String → List String
unfolding dedup_after
dedup [] = []
dedup (m ∷ ms) = m ∷ dedup_after m ms

-- `join(",")`
unfoldable pub join : List String → String
join [] = ""
join (m ∷ []) = m
join (m ∷ x ∷ xs) = str_append m (str_append "," (join (x ∷ xs)))

unfoldable pub codecs : List String → String
unfolding sort_mimes dedup join
codecs mimes = join (dedup (sort_mimes mimes))

abbrev local_uri : String → String
local_uri name = str_append name "/manifest.m3u8"

-- With a base, the address in the cloud.
abbrev pub stream_uri : Option String → String → String
stream_uri none name = local_uri name
stream_uri (some base) name = str_append base (str_append "/" (local_uri name))

-- The master playlist of a state, with addresses below a base if there is one.
unfoldable pub playlist : Option String → State → MasterPlaylist
playlist base st = record {
  variants =
      map {B = VariantStream}
        (λ v. record {
          uri = stream_uri base v.name;
          bandwidth = v.bitrate;
          codecs = codecs st.all_mimes;
          width = v.width;
          height = v.height;
        })
        st.video_streams;
  alternatives =
      map {B = AlternativeMedia}
        (λ a. record {
          uri = stream_uri base a.name;
          language = a.lang;
          name = a.name;
          is_default = a.is_default;
        })
        st.audio_streams;
}

-- Is the playlist still to be written, and are all codecs there?
unfoldable pub is_due : State → Bool
is_due st =
    if st.wrote_manifest
    then false
    else not (ltb (length st.all_mimes) (length st.video_streams + length st.audio_streams))

unfoldable pub write_manifest : Option String → State → State
write_manifest base st = record st { written = some (playlist base st); wrote_manifest = true }

unfoldable pub maybe_write_manifest : State → State
maybe_write_manifest st = if is_due st then write_manifest none st else st

-- `State::add_mime`, and what `probe_encoder` does.
unfoldable pub add_mime : String → State → State
add_mime mime st = maybe_write_manifest (record st { all_mimes = st.all_mimes ++ mime ∷ [] })

pub record UploadTask : Type 0 where
  pub local_path : String
  pub key : String
  pub content_type : String

-- `queue` is what the upload worker is sent, if it is there.
pub record R2MasterState : Type 0 where
  pub state : State
  pub cloud_url_base : Option String
  pub queue : List UploadTask
  pub has_worker : Bool

-- `R2Storage::upload_file`
unfoldable pub upload_file : UploadTask → R2MasterState → Result String (Unit {0}) × R2MasterState
upload_file task r =
    if r.has_worker
    then (ok tt, record r { queue = r.queue ++ task ∷ [] })
    else (err "Upload worker not initialized", r)

unfoldable pub maybe_write_and_upload_manifest :
    R2MasterState → Result String (Option (Unit {0})) × R2MasterState
maybe_write_and_upload_manifest r =
    if is_due r.state
    then (let (answer, r') =
          upload_file
            (record {
              local_path = r.state.path;
              key = "master.m3u8";
              content_type = "application/vnd.apple.mpegurl";
            })
            (record r { state = write_manifest r.cloud_url_base r.state }) in
        elim answer [ ok _ ↦ (ok (some tt), r') | err e ↦ (err e, r') ])
    else (ok none, r)

-- `R2MasterState::add_mime`
unfoldable pub add_cloud_mime :
    String → R2MasterState → Result String (Option (Unit {0})) × R2MasterState
add_cloud_mime mime r = maybe_write_and_upload_manifest (record r { state = add_mime mime r.state })

-- The codecs of the streams come one after the other.
unfoldable pub add_mimes : List String → State → State
add_mimes [] st = st
add_mimes (m ∷ ms) st = add_mimes ms (add_mime m st)

unfoldable pub add_cloud_mimes : List String → R2MasterState → R2MasterState
add_cloud_mimes [] r = r
add_cloud_mimes (m ∷ ms) r = add_cloud_mimes ms (add_cloud_mime m r).1
