-- ===== src/Examples/StoreRuns.antt =====
-- Runs of pihub/settings.py, pihub/history.py and pihub/apple_tv_airplay.py.
use pihub_remote_nrf.Prelude.{ℕ, String, ◌≡◌, refl, true, some, List, [], ◌∷◌, arith, suc, false}
use pihub_remote_nrf.Prelude.Text.{is_empty}
use pihub_remote_nrf.Prelude.Int.{pos, parse_int}
use pihub_remote_nrf.Prelude.Json.{Value, Fields, str, int, obj, end, field, holds, missing}
use pihub_remote_nrf.Prelude.Result.{Result, ok, err}
use pihub_remote_nrf.Slots.{resolve_slot, listen_slot}
use pihub_remote_nrf.Settings.Values.{SettingsData, defaults, to_fields, getters}
use pihub_remote_nrf.Settings.Validate.{validate, stream_in_range}
use pihub_remote_nrf.Settings.Store.{Store, save_from_payload, load}
use pihub_remote_nrf.Settings.Valid.{IsValid}
use pihub_remote_nrf.Settings.Loading.{Returns, load_lem, save-load}
use pihub_remote_nrf.Settings.Playable.{Plays, saved_listen_target-Plays}
use pihub_remote_nrf.History.Store.{new_store, contents, list_events}
use pihub_remote_nrf.History.Log.{
  call, Call, event, report, cleared, changed, run, replay, window, run-replay,
}
use pihub_remote_nrf.History.Writer.{Shared, here, next, calls, changes, asks}
use pihub_remote_nrf.History.Saving.{history_is_saved, Saves, at_start}
use pihub_remote_nrf.Airplay.State.{Pending, Info, initial_deadline, resolve_service}
use pihub_remote_nrf.Airplay.Signals
use pihub_remote_nrf.Airplay.Signals.{At, at, started}

abbrev text : Value → String
text _ = "?"

-- The listen flow plays the second stream, which has a URL; the volume is given as a text.
abbrev payload : Fields
payload = field "listen_target_type" (str " TuneIn ") (
    field "listen_target_stream" (int (pos 2))
      (field "stream_url_2" (str "http://radio ") (field "listen_volume_pct" (str "35") end)))

load_lem_example : Returns (load text (holds (obj payload)))
load_lem_example = load_lem text (holds (obj payload))

abbrev stored : Store
stored = record { settings = defaults; file = missing }

abbrev saved : Store × Result Fields
saved = save_from_payload text true (some "AudioPro") payload stored

save-load_example :
    IsValid saved.0.settings
    × (to_fields saved.0.settings ≡ to_fields saved.0.settings)
    × (load text saved.0.file ≡ ok saved.0.settings)
unfolding save_from_payload parse_int stream_in_range
save-load_example =
    save-load text (some "AudioPro") payload stored saved.0 (to_fields saved.0.settings) refl

abbrev listened : SettingsData
listened = elim (validate text "audiopro" payload) [ ok d ↦ d | err _ ↦ defaults ]

saved_listen_target-Plays_example :
    Plays (resolve_slot (getters listened) "audiopro" (listen_slot (getters listened) "audiopro"))
unfolding is_empty validate parse_int stream_in_range
saved_listen_target-Plays_example =
    saved_listen_target-Plays text "audiopro" payload listened refl refl

-- What a report may become.
abbrev next_step : ℕ → ℕ
next_step r = suc r

abbrev log_calls : List (Call ℕ ℕ)
log_calls = event 1 ∷ cleared ∷ event 2 ∷ report 7 ∷ report 8 ∷ changed next_step ∷ event 3 ∷ []

run-replay_example :
    (contents (run log_calls (new_store 200 1))
      ≡ window 200 1 (replay log_calls (record { events = []; flow_reports = [] })))
    × (list_events 1 (run log_calls (new_store 200 1)) ≡ 3 ∷ [])
unfolding replay
run-replay_example = run-replay 200 1 log_calls 1 (omega arith)

abbrev quiet : Shared ℕ ℕ
quiet = at_start (new_store 2 1)

-- A flow's run: its report is added, changes, and an event says that it is finished.
abbrev reported : Shared ℕ ℕ
reported = record quiet { store = run (report 7 ∷ []) quiet.store; requests = 1 }

abbrev stepped : Shared ℕ ℕ
stepped = record reported {
  store = run (changed next_step ∷ []) reported.store;
  changed_since = true;
}

abbrev called : Shared ℕ ℕ
called = record stepped {
  store = run (event 4 ∷ []) stepped.store;
  requests = 2;
  changed_since = false;
}

abbrev asked_once : Shared ℕ ℕ
asked_once = record called { requests = 1; flush = true }

abbrev asked : Shared ℕ ℕ
asked = record asked_once { requests = 0 }

history_is_saved_example : Saves (contents asked.store) asked
unfolding run call
history_is_saved_example =
    history_is_saved (new_store 2 1) asked
      (next
        (next
          (next
            (next (next here (calls (report 7) quiet refl)) (changes next_step next_step reported))
            (calls (event 4) stepped refl))
          (asks 1 called refl))
        (asks 0 asked_once refl))
      refl refl

-- The start-up's deadline passes; then a reading shows a session.
abbrev session_info : Info
session_info = record { answered = true; matches_target_ip = true; flags_property = some "0x20000" }

abbrev late : At
late = at 10 (initial_deadline (started true 250 true 0).tv) (started true 250 true 0)

abbrev watching : At
watching = at 20 (resolve_service 20 "tv" session_info late.tv) late

abbrev due : Pending
due = record { since = 20; due = 270; service_name = "tv" }
