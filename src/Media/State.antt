-- ===== src/Media/State.antt =====
-- Screen sharing, the cached description and the end of a media.
use waterbus_rs.Base.{
  ◌≡◌, refl, true, false, String, string_eq, str_eq, Option, none, some, arith, if◌then◌else◌,
}
use waterbus_rs.Table.{get, get-remove}
use waterbus_rs.Media.{Media, cache_sdp, get_sdp, set_screen_sharing}

-- While a media is not shared, a screen that is shared and then ended leaves no track of the screen,
-- all other tracks, and the state as it was, but that no screen track is remembered. A second
-- request to share while the first lasts is ignored.
pub screen_shared_and_ended :
    (m : Media) (screen id : String) (other end : Option String)
    → m.state.is_screen_sharing ≡ false
    → (get id (set_screen_sharing false end (set_screen_sharing true (some screen) m)).tracks
        ≡ (if str_eq screen id then none else get id m.tracks))
      × ((set_screen_sharing false end (set_screen_sharing true (some screen) m)).state
          ≡ record m.state { screen_track_id = none })
      × (set_screen_sharing true other (set_screen_sharing true (some screen) m)
          ≡ set_screen_sharing true (some screen) m)
unfolding set_screen_sharing
screen_shared_and_ended m screen id other end off = ground (arith, get-remove screen id m.tracks)

-- A cached description is given out once, and the media is then as if nothing had been cached.
pub sdp_given_once :
    (m : Media) (sdp : String)
    → ((get_sdp (cache_sdp sdp m)).0 ≡ some sdp)
      × ((get_sdp (get_sdp (cache_sdp sdp m)).1).0 ≡ none)
      × ((get_sdp (cache_sdp sdp m)).1 ≡ (get_sdp m).1)
unfolding get_sdp cache_sdp
sdp_given_once m sdp = (refl, refl, refl)
