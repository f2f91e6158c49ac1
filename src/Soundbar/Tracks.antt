-- ===== src/Soundbar/Tracks.antt =====
-- pihub/samsung_soundbar.py: the soundbar's state is that of the readings heard.
use pihub_remote_nrf.Prelude.{
  ℕ, String, ◌≡◌, refl, sym, ap, subst, ◌∙◌, Bool, true, false, not, Option, none, some, List, [],
  ◌∷◌, ◌&&◌, ◌||◌, is_some, if_cases, if◌then◌else◌,
}
use pihub_remote_nrf.Prelude.Int.{ℤ}
use pihub_remote_nrf.InitialStatus.{mark_received}
use pihub_remote_nrf.Soundbar.State.{
  Readings, derived_state, Bar, new_bar, is_set, is_same, same_cast, known_player, norm_str,
  maybe_emit_listen_edge, set_readings, apply_airplay_snapshot, handle_airplay_update,
  handle_airplay_removed, CastStatus, cast_readings, note_connected, apply_cast_snapshot,
  handle_cast_status_event, say_status_when_known, note_refresh_success, ensure_cast, refreshed,
  disconnect_cast, refresh_failed, handle_cast_media_event, status_wait_deadline,
  airplay_initial_deadline, start, stop, Event, airplay_update, airplay_removed, cast_status,
  refresh, refresh_fails, media, connects, status_wait_ends, airplay_wait_ends, starts, stops, step,
  run,
}
use pihub_remote_nrf.Soundbar.Heard.{Heard, new_heard, see, hear, heard, said}

-- What a bar holds of it.
abbrev held : Bool → Bar → Heard
held told b = record {
  enabled = b.enabled;
  cast = b.cast;
  service = b.airplay_service_raw_name;
  told = told;
  readings = b.readings;
}

record Tracks (b : Bar) (h : Heard) : Type 0 where
  holds : held h.told b ≡ h
  derived : b.derived ≡ said h

-- A step that changes none of it.
record Kept (b b' : Bar) : Type 0 where
  held_same : (told : Bool) → held told b' ≡ held told b
  derived_same : b'.derived ≡ b.derived

Tracks-Kept : (b b' : Bar) (h : Heard) → Tracks b h → Kept b b' → Tracks b' h
Tracks-Kept b b' h k s = record {
  holds = s.held_same h.told ∙ k.holds;
  derived = s.derived_same ∙ k.derived;
}

same : (b : Bar) → Kept b b
same b = record { held_same = λ told. refl; derived_same = refl }

emit-Kept : (old f : Bool) (b : Bar) → Kept b (maybe_emit_listen_edge old f b)
unfolding maybe_emit_listen_edge
emit-Kept old f b = if_cases (Kept b) f (same b) (
    if_cases (Kept b) (not old && b.derived.listen_active)
      (record { held_same = λ told. refl; derived_same = refl }) (same b))

set_readings-Tracks :
    (f : Bool) (r : Readings) (b : Bar)
    → Tracks (set_readings f r b) (record (held true b) { readings = r })
unfolding set_readings
set_readings-Tracks f r b =
    let c = record b { readings = r; derived = derived_state r } in
    Tracks-Kept c (maybe_emit_listen_edge b.derived.listen_active f c) (held true c)
      (record { holds = refl; derived = refl }) (emit-Kept b.derived.listen_active f c)

say-Kept : (b : Bar) → Kept b (say_status_when_known b)
unfolding say_status_when_known
say-Kept b = if_cases (Kept b) (not b.status_line_due) (same b) (
    if_cases (Kept b) (is_set b.readings.cast_app_id && not b.media_status_seen)
      (record { held_same = λ told. refl; derived_same = refl })
      (record { held_same = λ told. refl; derived_same = refl }))

success-Kept : (b : Bar) → Kept b (note_refresh_success b)
unfolding note_refresh_success
success-Kept b =
    let due = b.status_line_due || not b.cast_ready_logged || b.availability_logged_down in
    let s = say-Kept (record b { status_line_due = due; cast_ready_logged = true }) in
    record { held_same = s.held_same; derived_same = s.derived_same }

cast-Tracks :
    (told : Bool) (st : CastStatus) (b : Bar)
    → Tracks (apply_cast_snapshot st b) (see st (held told b))
unfolding apply_cast_snapshot cast_readings see
cast-Tracks told st b =
    let t =
      set_readings-Tracks (not b.initial.settled) (cast_readings st b.readings)
        (note_connected st b) in
    record { holds = t.holds; derived = t.derived }

airplay-Tracks :
    (flags : Option ℤ) (device name : Option String) (b : Bar)
    → Tracks
        (apply_airplay_snapshot flags device (record b { airplay_service_raw_name = name }))
        (record (held true b) {
          service = name;
          readings = record b.readings { airplay_flags = flags };
        })
unfolding apply_airplay_snapshot
airplay-Tracks flags device name b =
    let t =
      set_readings-Tracks (not b.airplay_initial.settled)
        (record b.readings { airplay_flags = flags })
        (record b { airplay_service_raw_name = name; airplay_device = device }) in
    record { holds = t.holds; derived = t.derived }

removed-Tracks :
    (name : String) (told : Bool) (b : Bar)
    → Tracks b (held told b)
    → Tracks (handle_airplay_removed name b) (hear (airplay_removed name) (held told b))
unfolding handle_airplay_removed hear
removed-Tracks name told b k = by_test (is_same name b.airplay_service_raw_name)
  where
    by_test :
        (same_name : Bool)
        → Tracks
            (if same_name
              then apply_airplay_snapshot none b.airplay_device
                  (record b { airplay_service_raw_name = none })
              else b)
            (if same_name
              then record (held told b) {
                service = none;
                told = true;
                readings = record b.readings { airplay_flags = none };
              }
              else held told b)
    by_test true = airplay-Tracks none b.airplay_device none b
    by_test false = k

update-Tracks :
    (name : String) (device : Option String) (flags : Option ℤ) (told : Bool) (b : Bar)
    → Tracks b (held told b)
    → Tracks
        (handle_airplay_update name device flags b)
        (hear (airplay_update name device flags) (held told b))
unfolding handle_airplay_update hear
update-Tracks name device flags told b k = by_test b.enabled (is_some flags)
  where
    snapshot : Bar
    snapshot =
        apply_airplay_snapshot flags device (record b { airplay_service_raw_name = some name })

    t : Tracks snapshot (record (held true b) {
      service = some name;
      readings = record b.readings { airplay_flags = flags };
    })
    t = airplay-Tracks flags device (some name) b

    by_test :
        (enabled flagged : Bool)
        → Tracks
            (if not enabled
              then b
              else if flagged
              then record snapshot { airplay_initial = mark_received snapshot.airplay_initial }
              else snapshot)
            (if enabled
              then record (held told b) {
                service = some name;
                told = true;
                readings = record b.readings { airplay_flags = flags };
              }
              else held told b)
    by_test true true = record { holds = t.holds; derived = t.derived }
    by_test true false = t
    by_test false flagged = k

media-Tracks :
    (n : ℕ) (player : Option String) (told : Bool) (b : Bar)
    → Tracks b (held told b)
    → Tracks (handle_cast_media_event n player b) (hear (media n player) (held told b))
unfolding handle_cast_media_event hear
media-Tracks n player told b k = by_test (b.enabled && same_cast n b.cast)
  where
    r : Readings
    r = record b.readings { cast_player_state = known_player (norm_str player) }

    c : Bar
    c = set_readings (not b.initial.settled) r b

    seen : Bar
    seen = record c { media_status_seen = true }

    t : Tracks c (record (held true b) { readings = r })
    t = set_readings-Tracks (not b.initial.settled) r b

    by_test :
        (hears : Bool)
        → Tracks
            (if hears then say_status_when_known seen else b)
            (if hears then record (held told b) { told = true; readings = r } else held told b)
    by_test true =
        Tracks-Kept seen (say_status_when_known seen) (record (held true b) { readings = r })
          (record { holds = t.holds; derived = t.derived }) (say-Kept seen)
    by_test false = k

status-Tracks :
    (st : CastStatus) (told : Bool) (b : Bar)
    → Tracks b (held told b)
    → Tracks (handle_cast_status_event st b) (hear (cast_status st) (held told b))
unfolding handle_cast_status_event hear
status-Tracks st told b k = by_test b.enabled
  where
    by_test :
        (enabled : Bool)
        → Tracks
            (if enabled then apply_cast_snapshot st b else b)
            (if enabled then see st (held told b) else held told b)
    by_test true = cast-Tracks told st b
    by_test false = k

failed-Tracks :
    (given_up : Bool) (e : String) (told : Bool) (b : Bar)
    → Tracks b (held told b)
    → Tracks (refresh_failed given_up e b) (hear (refresh_fails given_up e) (held told b))
unfolding refresh_failed disconnect_cast hear
failed-Tracks true e told b k = record { holds = refl; derived = k.derived }
failed-Tracks false e told b k = record { holds = refl; derived = k.derived }

deadline-Kept : (b : Bar) → Kept b (status_wait_deadline b)
unfolding status_wait_deadline
deadline-Kept b = if_cases (Kept b) (not b.status_waits) (same b) (
    if_cases (Kept b) (b.status_line_due && not b.media_status_seen)
      (record { held_same = λ told. refl; derived_same = refl })
      (record { held_same = λ told. refl; derived_same = refl }))

held-Tracks :
    (e : Event) (told : Bool) (b : Bar)
    → Tracks b (held told b)
    → Tracks (step e b) (hear e (held told b))
unfolding step refreshed ensure_cast start stop disconnect_cast airplay_initial_deadline hear
held-Tracks (airplay_update name device flags) told b k = update-Tracks name device flags told b k
held-Tracks (airplay_removed name) told b k = removed-Tracks name told b k
held-Tracks (cast_status st) told b k = status-Tracks st told b k
held-Tracks (refresh n st) told b k =
    let c = ensure_cast n b in
    Tracks-Kept (apply_cast_snapshot st c) (note_refresh_success (apply_cast_snapshot st c))
      (see st (held told c)) (cast-Tracks told st c) (success-Kept (apply_cast_snapshot st c))
held-Tracks (refresh_fails given_up e) told b k = failed-Tracks given_up e told b k
held-Tracks (media n player) told b k = media-Tracks n player told b k
held-Tracks (connects n) told b k = record { holds = refl; derived = k.derived }
held-Tracks status_wait_ends told b k =
    Tracks-Kept b (status_wait_deadline b) (held told b) k (deadline-Kept b)
held-Tracks airplay_wait_ends told b k = record { holds = refl; derived = k.derived }
held-Tracks starts told b k = record { holds = refl; derived = k.derived }
held-Tracks stops told b k = record { holds = refl; derived = k.derived }

hear-Tracks : (e : Event) (b : Bar) (h : Heard) → Tracks b h → Tracks (step e b) (hear e h)
hear-Tracks e b h k =
    subst (λ (x : Heard). Tracks (step e b) (hear e x)) k.holds
      (held-Tracks e h.told b
        (record { holds = refl; derived = k.derived ∙ ap said (sym k.holds) }))

run-Tracks : (es : List Event) (b : Bar) (h : Heard) → Tracks b h → Tracks (run es b) (heard es h)
unfolding run heard
run-Tracks [] b h k = k
run-Tracks (e ∷ es) b h k = run-Tracks es (step e b) (hear e h) (hear-Tracks e b h k)

-- From the start on, the readings are those heard, and the rest is said of them.
pub run-heard :
    (es : List Event)
    → ((run es new_bar).readings ≡ (heard es new_heard).readings)
      × ((run es new_bar).derived ≡ said (heard es new_heard))
run-heard es =
    let k = run-Tracks es new_bar new_heard (record { holds = refl; derived = refl }) in
    (ap (λ (h : Heard). h.readings) k.holds, k.derived)
