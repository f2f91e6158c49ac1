-- ===== src/Soundbar/Heard.antt =====
-- pihub/samsung_soundbar.py: the last readings of AirPlay and Cast, told from the events alone.
use pihub_remote_nrf.Prelude.{
  ℕ, String, Bool, true, false, Option, none, some, List, [], ◌∷◌, ◌&&◌, is_some, if◌then◌else◌,
}
use pihub_remote_nrf.Soundbar.State.{
  Readings, Derived, derived_state, new_bar, is_same, same_app, same_cast, known_player, norm_str,
  CastStatus, Event, airplay_update, airplay_removed, cast_status, refresh, refresh_fails, media,
  connects, status_wait_ends, airplay_wait_ends, starts, stops,
}

-- What was heard: whether anything was, the last AirPlay record with its flags, the Cast connection with its app and
-- player.
pub record Heard : Type 0 where
  pub enabled : Bool
  pub cast : Option ℕ
  pub service : Option String
  pub told : Bool
  pub readings : Readings

abbrev pub new_heard : Heard
new_heard = record {
  enabled = false;
  cast = none;
  service = none;
  told = false;
  readings = record { airplay_flags = none; cast_app_id = none; cast_player_state = none };
}

abbrev pub connect : ℕ → Heard → Heard
connect n h = record h { cast = if is_some h.cast then h.cast else some n }

-- A Cast status names the app; of another app the player's state is not known.
unfoldable pub see : CastStatus → Heard → Heard
see st h = record h {
  told = true;
  readings = record {
    airplay_flags = h.readings.airplay_flags;
    cast_app_id = norm_str st.app_id;
    cast_player_state =
        if same_app (norm_str st.app_id) h.readings.cast_app_id
        then h.readings.cast_player_state
        else none;
  };
}

-- AirPlay's flags are those of the last update, until its service is removed. Updates and Cast's events that come while
-- the soundbar is not enabled are not heard, nor are players' states over a Cast connection that is not held; a
-- round of the watchdog and a service's removal are heard at any time.
unfoldable pub hear : Event → Heard → Heard
unfolding see
hear (airplay_update name device flags) h =
    if h.enabled
    then record h {
      service = some name;
      told = true;
      readings = record h.readings { airplay_flags = flags };
    }
    else h
hear (airplay_removed name) h =
    if is_same name h.service
    then record h {
      service = none;
      told = true;
      readings = record h.readings { airplay_flags = none };
    }
    else h
hear (cast_status st) h = if h.enabled then see st h else h
hear (refresh n st) h = see st (connect n h)
hear (refresh_fails given_up e) h = if given_up then record h { cast = none } else h
hear (media n player) h =
    if h.enabled && same_cast n h.cast
    then record h {
      told = true;
      readings = record h.readings { cast_player_state = known_player (norm_str player) };
    }
    else h
hear (connects n) h = connect n h
hear status_wait_ends h = h
hear airplay_wait_ends h = h
hear starts h = record h { enabled = true }
hear stops h = record h { enabled = false; cast = none }

unfoldable pub heard : List Event → Heard → Heard
unfolding hear
heard [] h = h
heard (e ∷ es) h = heard es (hear e h)

-- What is then said of the soundbar.
abbrev pub said : Heard → Derived
said h = if h.told then derived_state h.readings else new_bar.derived
