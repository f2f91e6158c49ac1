-- ===== src/Soundbar/Signals.antt =====
-- pihub/samsung_soundbar.py: when a report sends a listen signal, and what the soundbar is said to play.
use mathlib.Core.List.{append-nil}
use pihub_remote_nrf.Prelude.{
  ℕ, String, ◌≡◌, refl, sym, Bool, true, false, not, Option, none, some, List, [], ◌∷◌, ◌++◌, ◌&&◌,
  ◌||◌, arith, is_some, if_cases, if◌then◌else◌,
}
use pihub_remote_nrf.Prelude.Int.{ℤ}
use pihub_remote_nrf.Soundbar.Heard.{new_heard, heard, said}
use pihub_remote_nrf.Soundbar.Tracks.{run-heard}
use pihub_remote_nrf.Soundbar.State.{
  Signal, Readings, Derived, derived_state, Bar, new_bar, is_set, is_same, same_cast, known_player,
  norm_str, maybe_emit_listen_edge, set_readings, apply_airplay_snapshot, handle_airplay_update,
  handle_airplay_removed, CastStatus, cast_readings, note_connected, apply_cast_snapshot,
  handle_cast_status_event, say_status_when_known, note_refresh_success, ensure_cast, refreshed,
  disconnect_cast, refresh_failed, handle_cast_media_event, status_wait_deadline,
  airplay_initial_deadline, start, stop, Event, airplay_update, airplay_removed, cast_status,
  refresh, refresh_fails, media, connects, status_wait_ends, airplay_wait_ends, starts, stops, step,
  run,
}

-- The signals of one report: by whether it can be a first reading, whether the bar was listening before, and the
-- state after it.
abbrev pub edge : Bool → Bool → Derived → List Signal
edge first_reading before d =
    if not first_reading && not before && d.listen_active
    then record { source = d.source; playback_status = d.playback_status } ∷ []
    else []

-- Whether a report counts as a first reading: AirPlay's has its own.
abbrev pub is_first : Event → Bar → Bool
is_first (airplay_update _ _ _) b = not b.airplay_initial.settled
is_first (airplay_removed _) b = not b.airplay_initial.settled
is_first _ b = not b.initial.settled

-- What one step does.
record Stepped (first_reading : Bool) (b b' : Bar) : Type 0 where
  signals : b'.signals ≡ b.signals ++ edge first_reading b.derived.listen_active b'.derived

no_edge : (first_reading : Bool) (d : Derived) → edge first_reading d.listen_active d ≡ []
no_edge first_reading d = ground arith

-- A step that leaves what is said of the soundbar, and the signals.
record Same (b b' : Bar) : Type 0 where
  signals : b'.signals ≡ b.signals
  derived : b'.derived ≡ b.derived

Same-Stepped : (f : Bool) (b b' : Bar) → Same b b' → Stepped f b b'
Same-Stepped f b b' h = record {
  signals = rw (h.signals, h.derived, no_edge f b.derived) (sym (append-nil b.signals));
}

Stepped-Same : (f : Bool) (b b' b'' : Bar) → Stepped f b b' → Same b' b'' → Stepped f b b''
Stepped-Same f b b' b'' k h = record { signals = rw (h.signals, h.derived) k.signals }

Same-refl : (b : Bar) → Same b b
Same-refl b = record { signals = refl; derived = refl }

emit-signals :
    (old f : Bool) (b : Bar)
    → (maybe_emit_listen_edge old f b).signals ≡ b.signals ++ edge f old b.derived
unfolding maybe_emit_listen_edge
emit-signals old true b = sym (append-nil b.signals)
emit-signals old false b = by_test (not old && b.derived.listen_active)
  where
    by_test :
        (t : Bool)
        → (if t
            then record b {
              signals =
                  b.signals
                  ++ record {
                    source = b.derived.source;
                    playback_status = b.derived.playback_status;
                  }
                    ∷ [];
            }
            else b).signals
          ≡ b.signals
            ++ (if t
                then record {
                  source = b.derived.source;
                  playback_status = b.derived.playback_status;
                }
                  ∷ []
                else [])
    by_test true = refl
    by_test false = sym (append-nil b.signals)

emit-derived : (old f : Bool) (b : Bar) → (maybe_emit_listen_edge old f b).derived ≡ b.derived
unfolding maybe_emit_listen_edge
emit-derived old f b =
    let P = λ (x : Bar). x.derived ≡ b.derived in
    if_cases P f refl (if_cases P (not old && b.derived.listen_active) refl refl)

set_readings-Stepped : (f : Bool) (r : Readings) (b : Bar) → Stepped f b (set_readings f r b)
unfolding set_readings
set_readings-Stepped f r b =
    let c = record b { readings = r; derived = derived_state r } in
    let kept = emit-derived b.derived.listen_active f c in
    record { signals = rw kept (emit-signals b.derived.listen_active f c) }

airplay-Stepped :
    (flags : Option ℤ) (device name : Option String) (b : Bar)
    → Stepped
        (not b.airplay_initial.settled)
        b
        (apply_airplay_snapshot flags device (record b { airplay_service_raw_name = name }))
unfolding apply_airplay_snapshot
airplay-Stepped flags device name b =
    let s =
      set_readings-Stepped (not b.airplay_initial.settled)
        (record b.readings { airplay_flags = flags })
        (record b { airplay_service_raw_name = name; airplay_device = device }) in
    record { signals = s.signals }

update-Stepped :
    (name : String) (device : Option String) (flags : Option ℤ) (b : Bar)
    → Stepped (not b.airplay_initial.settled) b (handle_airplay_update name device flags b)
unfolding handle_airplay_update
update-Stepped name device flags b =
    let f = not b.airplay_initial.settled in
    let told = airplay-Stepped flags device (some name) b in
    if_cases (Stepped f b) (not b.enabled) (Same-Stepped f b b (Same-refl b))
      (if_cases (Stepped f b) (is_some flags) (record { signals = told.signals }) told)

removed-Stepped :
    (name : String) (b : Bar)
    → Stepped (not b.airplay_initial.settled) b (handle_airplay_removed name b)
unfolding handle_airplay_removed
removed-Stepped name b =
    let f = not b.airplay_initial.settled in
    if_cases (Stepped f b) (is_same name b.airplay_service_raw_name)
      (airplay-Stepped none b.airplay_device none b) (Same-Stepped f b b (Same-refl b))

cast-Stepped :
    (st : CastStatus) (b : Bar) → Stepped (not b.initial.settled) b (apply_cast_snapshot st b)
unfolding apply_cast_snapshot
cast-Stepped st b =
    let s =
      set_readings-Stepped (not b.initial.settled) (cast_readings st b.readings)
        (note_connected st b) in
    record { signals = s.signals }

say-Same : (b : Bar) → Same b (say_status_when_known b)
unfolding say_status_when_known
say-Same b = if_cases (Same b) (not b.status_line_due) (Same-refl b) (
    if_cases (Same b) (is_set b.readings.cast_app_id && not b.media_status_seen)
      (record { signals = refl; derived = refl }) (record { signals = refl; derived = refl }))

success-Same : (b : Bar) → Same b (note_refresh_success b)
unfolding note_refresh_success
success-Same b =
    let due = b.status_line_due || not b.cast_ready_logged || b.availability_logged_down in
    let s = say-Same (record b { status_line_due = due; cast_ready_logged = true }) in
    record { signals = s.signals; derived = s.derived }

status-Stepped :
    (st : CastStatus) (b : Bar) → Stepped (not b.initial.settled) b (handle_cast_status_event st b)
unfolding handle_cast_status_event
status-Stepped st b =
    let f = not b.initial.settled in
    if_cases (Stepped f b) b.enabled (cast-Stepped st b) (Same-Stepped f b b (Same-refl b))

refreshed-Stepped :
    (n : ℕ) (st : CastStatus) (b : Bar) → Stepped (not b.initial.settled) b (refreshed n st b)
unfolding refreshed ensure_cast
refreshed-Stepped n st b =
    let c = ensure_cast n b in
    let s = cast-Stepped st c in
    Stepped-Same (not b.initial.settled) b (apply_cast_snapshot st c) (refreshed n st b)
      (record { signals = s.signals }) (success-Same (apply_cast_snapshot st c))

failed-Same : (given_up : Bool) (e : String) (b : Bar) → Same b (refresh_failed given_up e b)
unfolding refresh_failed disconnect_cast
failed-Same given_up e b =
    let s = if_cases (Same b) given_up (record { signals = refl; derived = refl }) (Same-refl b) in
    record { signals = s.signals; derived = s.derived }

media-Stepped :
    (n : ℕ) (player : Option String) (b : Bar)
    → Stepped (not b.initial.settled) b (handle_cast_media_event n player b)
unfolding handle_cast_media_event
media-Stepped n player b =
    let f = not b.initial.settled in
    let told =
      set_readings f (record b.readings { cast_player_state = known_player (norm_str player) }) b in
    let seen = record told { media_status_seen = true } in
    let s =
      set_readings-Stepped f
        (record b.readings { cast_player_state = known_player (norm_str player) }) b in
    if_cases (Stepped f b) (b.enabled && same_cast n b.cast)
      (Stepped-Same f b seen (say_status_when_known seen) (record { signals = s.signals })
        (say-Same seen))
      (Same-Stepped f b b (Same-refl b))

deadline-Same : (b : Bar) → Same b (status_wait_deadline b)
unfolding status_wait_deadline
deadline-Same b = if_cases (Same b) (not b.status_waits) (Same-refl b) (
    if_cases (Same b) (b.status_line_due && not b.media_status_seen)
      (record { signals = refl; derived = refl }) (record { signals = refl; derived = refl }))

step-Stepped : (e : Event) (b : Bar) → Stepped (is_first e b) b (step e b)
unfolding step ensure_cast start stop disconnect_cast airplay_initial_deadline
step-Stepped (airplay_update name device flags) b = update-Stepped name device flags b
step-Stepped (airplay_removed name) b = removed-Stepped name b
step-Stepped (cast_status st) b = status-Stepped st b
step-Stepped (refresh n st) b = refreshed-Stepped n st b
step-Stepped (refresh_fails given_up e) b =
    Same-Stepped (not b.initial.settled) b (refresh_failed given_up e b) (failed-Same given_up e b)
step-Stepped (media n player) b = media-Stepped n player b
step-Stepped (connects n) b =
    Same-Stepped (not b.initial.settled) b (ensure_cast n b)
      (record { signals = refl; derived = refl })
step-Stepped status_wait_ends b =
    Same-Stepped (not b.initial.settled) b (status_wait_deadline b) (deadline-Same b)
step-Stepped airplay_wait_ends b =
    Same-Stepped (not b.initial.settled) b (airplay_initial_deadline b)
      (record { signals = refl; derived = refl })
step-Stepped starts b =
    Same-Stepped (not b.initial.settled) b (start b) (record { signals = refl; derived = refl })
step-Stepped stops b =
    Same-Stepped (not b.initial.settled) b (stop b) (record { signals = refl; derived = refl })

-- After any reports, rounds of the watchdog, deadlines, starts and stops from the start on: the readings are the last
-- ones heard of AirPlay (none once its service is removed) and of Cast (the player's state only as long as its app
-- stays), where AirPlay's updates and Cast's events are heard only while the soundbar is enabled, and a player's
-- state only over the Cast connection that is held; what is said of the soundbar (source, playback, power, and
-- whether a listen session is in progress) follows from the readings, or nothing was heard yet; and the next of
-- these events sends a listen signal exactly when it is no first reading of its kind and the session begins with it.
pub soundbar_reports :
    (es : List Event) (e : Event)
    → ((run es new_bar).readings ≡ (heard es new_heard).readings)
      × ((run es new_bar).derived ≡ said (heard es new_heard))
      × ((step e (run es new_bar)).signals
          ≡ (run es new_bar).signals
            ++ edge
                (is_first e (run es new_bar))
                (run es new_bar).derived.listen_active
                (step e (run es new_bar)).derived)
soundbar_reports es e =
    ((run-heard es).0, (run-heard es).1, (step-Stepped e (run es new_bar)).signals)
