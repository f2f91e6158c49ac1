-- ===== src/Examples/KeyRuns.antt =====
-- Runs from the receiver's events (pihub/unifying_reader.py) to the speaker and the link (pihub/dispatcher.py).
use pihub_remote_nrf.Prelude.{
  ℕ, String, ◌≡◌, refl, inl, inr, true, Option, none, some, List, [], ◌∷◌, All,
}
use pihub_remote_nrf.Prelude.Int.{pos}
use pihub_remote_nrf.Prelude.Dict
use pihub_remote_nrf.Prelude.Dict.{Dict}
use pihub_remote_nrf.Prelude.Json.{Fields, obj, arr, str, int, end, field, nil, cons, get_field}
use pihub_remote_nrf.Reader.Filter.{
  InputEvent, msc_scan, key, other_event, fresh, is_pressed, on_event,
}
use pihub_remote_nrf.Reader.Loop.{opened, input, lose, closed, notify_disconnect, gone, no_device}
use pihub_remote_nrf.Reader.Edges.{IsClean, is_held, read, edges_alternate}
use pihub_remote_nrf.Reader.Steps
use pihub_remote_nrf.Reader.Schedule.{reader-IsSound}
use pihub_remote_nrf.Reader.Steps.{
  Watched, Reach, started, IsSound, reads, finds_none, opens_one, loses, closes, edge_list,
}
use pihub_remote_nrf.Dispatcher.State.{Bindings, Job, new_dispatcher, set_mode_bindings}
use pihub_remote_nrf.Dispatcher.Speaker.{async_method, returned, Speaker, Keys, work}
use pihub_remote_nrf.Dispatcher.Calls.{Presses}
use pihub_remote_nrf.Dispatcher.Presses.{work-Presses}
use pihub_remote_nrf.Dispatcher.Keymap.{validate_keymap}
use pihub_remote_nrf.Dispatcher.Routing.{IsMode, speaker, ble, modes_fields}
use pihub_remote_nrf.Dispatcher.Accepted.{validate_keymap_lem, validate_keymap-modes_fields}
use pihub_remote_nrf.Dispatcher.Direct.{Sends, accepted_ble_action-Sends}
use pihub_remote_nrf.Examples.BleRuns.{link}

abbrev scan_map : Dict String
scan_map = ("786924", "rem_power_off") ∷ ("KEY_LEFT", "rem_dir_left") ∷ []

abbrev key_name : ℕ → Option String
key_name _ = some "KEY_LEFT"

-- A mapped scan code's key goes down, repeats, goes down again, and comes up.
abbrev some_events : List InputEvent
some_events =
    msc_scan (pos 786924)
    ∷ key 240 1
    ∷ msc_scan (pos 786924)
    ∷ key 240 2
    ∷ msc_scan (pos 786924)
    ∷ key 240 1
    ∷ other_event
    ∷ key 105 1
    ∷ key 105 0
    ∷ []

edges_alternate_example :
    IsClean (read key_name scan_map some_events (fresh, [])).1
    × (is_pressed "rem_power_off" 240 (read key_name scan_map some_events (fresh, [])).0.pressed
        ≡ is_held "rem_power_off" 240 (read key_name scan_map some_events (fresh, [])).1)
edges_alternate_example = edges_alternate key_name scan_map some_events "rem_power_off" 240

-- No device, then one that sends an edge and goes away.
abbrev first : Watched
first = started 2

abbrev waited : Watched
waited = record first { reader = no_device true first.reader }

abbrev found : Watched
found = record waited { reader = opened true true waited.reader; opens = 1 }

abbrev pressed : Watched
pressed = record found {
  reader = input key_name scan_map (key 105 1) found.reader;
  made = edge_list (on_event key_name scan_map (key 105 1) found.reader.filter).1;
}

abbrev unplugged : Watched
unplugged = record pressed { reader = lose (gone "19") pressed.reader }

abbrev closed_again : Watched
closed_again = record unplugged { reader = closed (gone "19") unplugged.reader }

reader-IsSound_example : IsSound 2 closed_again
unfolding no_device opened input lose notify_disconnect
reader-IsSound_example = reader-IsSound 2 key_name scan_map closed_again (
    Steps.next
      (Steps.next
        (Steps.next
          (Steps.next (Steps.next Steps.here (finds_none true first refl))
            (opens_one true true waited refl))
          (reads (key 105 1) found refl refl))
        (loses (gone "19") pressed refl refl))
      (closes (gone "19") unplugged refl))

abbrev mute_key : Fields
mute_key = field "domain" (str "speaker") (field "action" (str "mute_toggle") end)

abbrev stop_key : Fields
stop_key = field "domain" (str "speaker") (field "action" (str "stop") end)

abbrev slot_key : Fields
slot_key =
    field "domain" (str "speaker")
      (field "action" (str "play_slot") (field "slot" (int (pos 3)) end))

abbrev amp : Speaker
amp = record {
  reachable = true;
  connected = true;
  ready = true;
  attribute = λ _. async_method;
  reply = λ _. returned;
}

abbrev no_presses : Keys
no_presses = record { last_key_error = none; last_cmd_fail_log = 0; warnings = []; sent = [] }

abbrev jobs : List (ℕ × Option Speaker × Job)
jobs =
    (100, some amp, record { action = stop_key; rem_key = "rem_stop" })
    ∷ (200, some amp, record { action = mute_key; rem_key = "rem_mute" })
    ∷ (300, some amp, record { action = slot_key; rem_key = "rem_3" })
    ∷ []

work-Presses_example : Presses jobs no_presses (work "audiopro" none jobs no_presses)
work-Presses_example = work-Presses "audiopro" none jobs no_presses

abbrev left_key : Fields
left_key =
    field "domain" (str "ble") (field "usage" (str "consumer") (field "code" (str "home") end))

abbrev watch_keys : Bindings
watch_keys = ("rem_home", left_key ∷ []) ∷ ("rem_mute", mute_key ∷ []) ∷ []

abbrev modes : Dict Bindings
modes = ("watch", watch_keys) ∷ []

abbrev document : Fields
document = field "scancode_map" (obj end) (
    field "modes"
      (obj (
        field "watch"
          (obj (
            field "rem_home" (arr (cons (obj left_key) nil))
              (field "rem_mute" (arr (cons (obj mute_key) nil)) end)))
          end))
      end)

validate_keymap_lem_example :
    (get_field "modes" document ≡ some (obj (modes_fields modes))) × All IsMode modes
unfolding validate_keymap get_field
validate_keymap_lem_example = validate_keymap_lem document modes refl

validate_keymap-modes_fields_example : validate_keymap (obj document) ≡ some modes
unfolding get_field modes_fields
validate_keymap-modes_fields_example = validate_keymap-modes_fields document modes refl (
  (
    (ble "consumer" "home" (record { domain = refl; usage_text = refl; code_text = refl }), tt),
    ((speaker refl, tt), tt),
  ),
  tt,
)

accepted_ble_action-Sends_example :
    Sends left_key "rem_home" 0 7
      (set_mode_bindings (some "watch") (new_dispatcher modes link true))
unfolding validate_keymap get_field Dict.get
accepted_ble_action-Sends_example =
    accepted_ble_action-Sends document modes link true "watch" "rem_home" watch_keys (left_key ∷ [])
      left_key 0 7 refl refl refl (inl refl) refl (inr refl)
