-- ===== src/Soundbar/State.antt =====
-- pihub/samsung_soundbar.py: SamsungSoundbar's state and what the reports of AirPlay's mDNS record and of the Cast
-- receiver change. A volume is a level in thousandths. The test that something changed guards only time stamps and a
-- signal that an unchanged state does not send, and is left out; time stamps and log lines are not modelled.
use pihub_remote_nrf.Prelude.{
  ℕ, String, ◌/◌, ◌%◌, Bool, true, false, not, Option, none, some, List, [], ◌∷◌, ◌++◌, ◌==◌, ◌&&◌,
  ◌||◌, nat_eq, ltb, is_some, if◌then◌else◌,
}
use pihub_remote_nrf.Prelude.Int.{ℤ, pos, negsuc, low_word}
use pihub_remote_nrf.Prelude.Text.{strip, is_empty}
use pihub_remote_nrf.InitialStatus.{InitialStatus, init, mark_received, mark_failed}

pub record Signal : Type 0 where
  pub source : Option String
  pub playback_status : Option String

-- The readings that the rest follows from: AirPlay's flags, the Cast app, and its player's state.
pub record Readings : Type 0 where
  pub airplay_flags : Option ℤ
  pub cast_app_id : Option String
  pub cast_player_state : Option String

-- The fields that follow from them.
pub record Derived : Type 0 where
  pub listen_active : Bool
  pub source : Option String
  pub playback_status : Option String
  pub power_on : Option Bool
  pub sound_from : Option String

-- airplay_flags & AIRPLAY_ACTIVE_BIT
unfoldable pub airplay_active : Option ℤ → Bool
unfolding low_word
airplay_active none = false
airplay_active (some z) = nat_eq (low_word z / 2048 % 2) 1

-- bool(cast_app_id)
abbrev pub is_set : Option String → Bool
is_set none = false
is_set (some s) = not (is_empty s)

-- cast_player_state in CAST_PLAYING_STATES
abbrev pub is_playing : Option String → Bool
is_playing none = false
is_playing (some s) = s == "PLAYING" || s == "BUFFERING"

abbrev pub is_paused : Option String → Bool
is_paused none = false
is_paused (some s) = s == "PAUSED"

unfoldable pub derive_source : Bool → Option String → String
derive_source airplay app = if airplay then "airplay" else if is_set app then "wifi" else "optical"

unfoldable pub derive_playback_status : Bool → Option String → Option String → Option String
derive_playback_status airplay app player =
    if airplay
    then some "playing"
    else if is_set app
    then if is_playing player
      then some "playing"
      else if is_paused player
      then some "paused"
      else some "idle"
    else none

unfoldable pub derived_state : Readings → Derived
unfolding airplay_active derive_source derive_playback_status
derived_state r =
    let airplay = airplay_active r.airplay_flags in
    let listen = airplay || is_set r.cast_app_id && is_playing r.cast_player_state in
    record {
      listen_active = listen;
      source = some (derive_source airplay r.cast_app_id);
      playback_status = derive_playback_status airplay r.cast_app_id r.cast_player_state;
      power_on = if listen || is_set r.cast_app_id then some true else none;
      sound_from =
          if airplay
          then some "airplay"
          else if is_set r.cast_app_id
          then some "google_cast"
          else none;
    }

pub record Bar : Type 0 where
  pub enabled : Bool
  -- Which Cast connection there is, by its number.
  pub cast : Option ℕ
  pub reachable : Bool
  pub connected : Bool
  pub ready : Bool
  pub last_error : Option String
  pub readings : Readings
  pub derived : Derived
  pub volume : Option ℕ
  pub muted : Option Bool
  pub airplay_device : Option String
  pub airplay_service_raw_name : Option String
  pub initial : InitialStatus
  pub airplay_initial : InitialStatus
  pub status_line_due : Bool
  pub cast_ready_logged : Bool
  pub availability_logged_down : Bool
  pub media_status_seen : Bool
  -- _status_wait_task is there and not done.
  pub status_waits : Bool
  pub signals : List Signal

abbrev pub new_bar : Bar
new_bar = record {
  enabled = false;
  cast = none;
  reachable = false;
  connected = false;
  ready = false;
  last_error = none;
  readings = record { airplay_flags = none; cast_app_id = none; cast_player_state = none };
  derived = record {
    listen_active = false;
    source = none;
    playback_status = none;
    power_on = none;
    sound_from = none;
  };
  volume = none;
  muted = none;
  airplay_device = none;
  airplay_service_raw_name = none;
  initial = init;
  airplay_initial = init;
  status_line_due = false;
  cast_ready_logged = false;
  availability_logged_down = false;
  media_status_seen = false;
  status_waits = false;
  signals = [];
}

-- _maybe_emit_listen_edge
unfoldable pub maybe_emit_listen_edge : Bool → Bool → Bar → Bar
maybe_emit_listen_edge old_listen first_reading b =
    if first_reading
    then b
    else if not old_listen && b.derived.listen_active
    then record b {
      signals =
          b.signals
          ++ record { source = b.derived.source; playback_status = b.derived.playback_status } ∷ [];
    }
    else b

-- The readings and what follows from them are set, and the edge is signalled.
unfoldable pub set_readings : Bool → Readings → Bar → Bar
unfolding maybe_emit_listen_edge derived_state
set_readings first_reading r b =
    maybe_emit_listen_edge b.derived.listen_active first_reading
      (record b { readings = r; derived = derived_state r })

unfoldable pub apply_airplay_snapshot : Option ℤ → Option String → Bar → Bar
unfolding set_readings
apply_airplay_snapshot flags device b =
    set_readings (not b.airplay_initial.settled) (record b.readings { airplay_flags = flags })
      (record b { airplay_device = device })

unfoldable pub handle_airplay_update : String → Option String → Option ℤ → Bar → Bar
unfolding apply_airplay_snapshot mark_received
handle_airplay_update raw_name device flags b =
    let told =
      apply_airplay_snapshot flags device (record b { airplay_service_raw_name = some raw_name }) in
    if not b.enabled
    then b
    else if is_some flags
    then record told { airplay_initial = mark_received told.airplay_initial }
    else told

abbrev pub is_same : String → Option String → Bool
is_same name none = false
is_same name (some s) = name == s

unfoldable pub handle_airplay_removed : String → Bar → Bar
unfolding apply_airplay_snapshot
handle_airplay_removed raw_name b =
    if is_same raw_name b.airplay_service_raw_name
    then apply_airplay_snapshot none b.airplay_device (record b { airplay_service_raw_name = none })
    else b

-- _norm_str of a text.
unfoldable pub norm_str : Option String → Option String
unfolding strip is_empty
norm_str none = none
norm_str (some s) = if is_empty (strip s) then none else some (strip s)

abbrev pub same_app : Option String → Option String → Bool
same_app none none = true
same_app none (some t) = false
same_app (some s) none = false
same_app (some s) (some t) = s == t

-- A Cast receiver status: the app, the volume level and whether it is muted.
pub record CastStatus : Type 0 where
  pub app_id : Option String
  pub volume : Option ℤ
  pub muted : Option Bool

-- max(0.0, min(1.0, volume))
abbrev pub level : Option ℤ → Option ℕ
level none = none
level (some (pos n)) = some (if ltb 1000 n then 1000 else n)
level (some (negsuc n)) = some 0

-- The readings after a status: of another app, or none, the player's state held is stale.
unfoldable pub cast_readings : CastStatus → Readings → Readings
unfolding norm_str
cast_readings st r =
    let app_id = norm_str st.app_id in
    record r {
      cast_app_id = app_id;
      cast_player_state = if same_app app_id r.cast_app_id then r.cast_player_state else none;
    }

abbrev pub note_connected : CastStatus → Bar → Bar
note_connected st b = record b {
  reachable = true;
  connected = true;
  ready = true;
  last_error = none;
  volume = level st.volume;
  muted = st.muted;
}

unfoldable pub apply_cast_snapshot : CastStatus → Bar → Bar
unfolding cast_readings set_readings
apply_cast_snapshot st b =
    set_readings (not b.initial.settled) (cast_readings st b.readings) (note_connected st b)

unfoldable pub handle_cast_status_event : CastStatus → Bar → Bar
unfolding apply_cast_snapshot
handle_cast_status_event st b = if b.enabled then apply_cast_snapshot st b else b

-- _say_status_when_known
unfoldable pub say_status_when_known : Bar → Bar
unfolding mark_received
say_status_when_known b =
    if not b.status_line_due
    then b
    else if is_set b.readings.cast_app_id && not b.media_status_seen
    then record b { status_waits = true }
    else record b { status_line_due = false; initial = mark_received b.initial }

unfoldable pub note_refresh_success : Bar → Bar
unfolding say_status_when_known
note_refresh_success b =
    let due = b.status_line_due || not b.cast_ready_logged || b.availability_logged_down in
    let said =
      say_status_when_known (record b { status_line_due = due; cast_ready_logged = true }) in
    record said { availability_logged_down = false }

-- _ensure_cast, where it makes a connection of this number if there is none.
unfoldable pub ensure_cast : ℕ → Bar → Bar
ensure_cast n b = record b { cast = if is_some b.cast then b.cast else some n }

-- A round of _runner that succeeds, on the Cast connection of this number.
unfoldable pub refreshed : ℕ → CastStatus → Bar → Bar
unfolding ensure_cast apply_cast_snapshot note_refresh_success
refreshed n st b = note_refresh_success (apply_cast_snapshot st (ensure_cast n b))

-- _disconnect_cast
unfoldable pub disconnect_cast : Bar → Bar
disconnect_cast b = record b { cast = none; cast_ready_logged = false; media_status_seen = false }

-- A round of _runner that raises; the flag says that the connection was given up before (_read_cast_status).
unfoldable pub refresh_failed : Bool → String → Bar → Bar
unfolding disconnect_cast mark_failed
refresh_failed given_up e b =
    let down = if given_up then disconnect_cast b else b in
    record down {
      reachable = false;
      connected = false;
      ready = false;
      last_error = some e;
      initial = mark_failed down.initial;
      availability_logged_down = true;
    }

abbrev pub same_cast : ℕ → Option ℕ → Bool
same_cast n none = false
same_cast n (some m) = nat_eq n m

abbrev pub known_player : Option String → Option String
known_player none = none
known_player (some s) = if s == "UNKNOWN" then none else some s

unfoldable pub handle_cast_media_event : ℕ → Option String → Bar → Bar
unfolding norm_str set_readings say_status_when_known
handle_cast_media_event cast player_state b =
    let told =
      set_readings (not b.initial.settled)
        (record b.readings { cast_player_state = known_player (norm_str player_state) }) b in
    if b.enabled && same_cast cast b.cast
    then say_status_when_known (record told { media_status_seen = true })
    else b

-- _status_wait_deadline, once its wait is over.
unfoldable pub status_wait_deadline : Bar → Bar
unfolding mark_failed
status_wait_deadline b =
    if not b.status_waits
    then b
    else if b.status_line_due && not b.media_status_seen
    then record b { status_waits = false; initial = mark_failed b.initial }
    else record b { status_waits = false }

-- _airplay_initial_deadline, once its wait is over.
unfoldable pub airplay_initial_deadline : Bar → Bar
unfolding mark_failed
airplay_initial_deadline b = record b { airplay_initial = mark_failed b.airplay_initial }

unfoldable pub start : Bar → Bar
start b = record b { enabled = true }

unfoldable pub stop : Bar → Bar
unfolding disconnect_cast
stop b = disconnect_cast (record b { enabled = false; status_waits = false })

pub data Event : Type 0 where
  airplay_update : String → Option String → Option ℤ → Event
  airplay_removed : String → Event
  cast_status : CastStatus → Event
  refresh : ℕ → CastStatus → Event
  refresh_fails : Bool → String → Event
  media : ℕ → Option String → Event
  -- _ensure_cast for a command makes a connection, of this number, where there is none.
  connects : ℕ → Event
  status_wait_ends airplay_wait_ends starts stops : Event

unfoldable pub step : Event → Bar → Bar
unfolding handle_airplay_update handle_airplay_removed handle_cast_status_event ensure_cast
    refreshed refresh_failed handle_cast_media_event status_wait_deadline airplay_initial_deadline
    start stop
step (airplay_update name device flags) b = handle_airplay_update name device flags b
step (airplay_removed name) b = handle_airplay_removed name b
step (cast_status st) b = handle_cast_status_event st b
step (refresh n st) b = refreshed n st b
step (refresh_fails given_up e) b = refresh_failed given_up e b
step (media n player) b = handle_cast_media_event n player b
step (connects n) b = ensure_cast n b
step status_wait_ends b = status_wait_deadline b
step airplay_wait_ends b = airplay_initial_deadline b
step starts b = start b
step stops b = stop b

unfoldable pub run : List Event → Bar → Bar
unfolding step
run [] b = b
run (e ∷ es) b = run es (step e b)
