-- ===== src/Egress/Master/Writing.antt =====
-- When the master playlist is written, and that it is not uploaded.
use waterbus_rs.Base.{
  ◌+◌, ◌≤◌, ◌≡◌, refl, true, false, String, none, some, List, [], ◌∷◌, ◌++◌, length, length-append,
  arith,
}
use waterbus_rs.Egress.Master.{
  State, R2MasterState, playlist, is_due, write_manifest, maybe_write_manifest, add_mime, add_mimes,
  maybe_write_and_upload_manifest, add_cloud_mime, add_cloud_mimes,
}

written_mimes :
    (ms : List String) (st : State)
    → st.wrote_manifest ≡ true
    → ((add_mimes ms st).written ≡ st.written) × ((add_mimes ms st).wrote_manifest ≡ true)
unfolding add_mimes add_mime maybe_write_manifest is_due
written_mimes [] st wrote = (refl, wrote)
written_mimes (m ∷ ms) st wrote =
    let next : State = record st { all_mimes = st.all_mimes ++ m ∷ [] } in
    ground (arith, wrote, written_mimes ms next wrote)

-- With the codec that makes them as many as the streams, the master playlist of all streams is
-- written, with the codecs there are then; it is not written again, whatever codecs come afterwards.
pub manifest_written_once :
    (mime : String) (later : List String) (st : State)
    → st.wrote_manifest ≡ false
    → length st.video_streams + length st.audio_streams ≤ length st.all_mimes + 1
    → (let complete : State = record st { all_mimes = st.all_mimes ++ mime ∷ [] } in
        ((add_mimes (mime ∷ later) st).written ≡ some (playlist none complete))
        × ((add_mimes (mime ∷ later) st).wrote_manifest ≡ true))
unfolding add_mimes add_mime maybe_write_manifest is_due write_manifest playlist
manifest_written_once mime later st new all =
    let complete : State = record st { all_mimes = st.all_mimes ++ mime ∷ [] } in
    let done : State = write_manifest none complete in
    let stays = written_mimes later done refl in
    let more = length-append st.all_mimes (mime ∷ []) in ground (arith, new, all, more, stays)

not_due_again : (st : State) → is_due (maybe_write_manifest st) ≡ false
unfolding maybe_write_manifest is_due write_manifest
not_due_again st = ground arith

-- Whatever codecs a state in the cloud is told, nothing is sent to the upload worker: by the time that
-- an upload is asked for, the playlist was written without one.
pub manifest_never_uploaded :
    (ms : List String) (r : R2MasterState) → (add_cloud_mimes ms r).queue ≡ r.queue
unfolding add_cloud_mimes add_cloud_mime maybe_write_and_upload_manifest add_mime
manifest_never_uploaded [] r = refl
manifest_never_uploaded (m ∷ ms) r =
    let complete : State = record r.state { all_mimes = r.state.all_mimes ++ m ∷ [] } in
    let next : R2MasterState = record r { state = maybe_write_manifest complete } in
    ground (arith, not_due_again complete, manifest_never_uploaded ms next)
