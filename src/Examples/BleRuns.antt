-- ===== src/Examples/BleRuns.antt =====
-- Runs of pihub/ble_dongle.py's link and of pihub/dispatcher.py's dispatcher on a small keymap.
use pihub_remote_nrf.Prelude.{
  ◌<◌, ℕ, ◌+◌, ◌≡◌, refl, ◌⊎◌, inl, inr, true, some, [], ◌∷◌, ◌++◌, arith, length, drop,
}
use pihub_remote_nrf.Prelude.Dict
use pihub_remote_nrf.Prelude.Dict.{Dict}
use pihub_remote_nrf.Prelude.Int.{pos}
use pihub_remote_nrf.Prelude.Json.{Fields, field, str, int, end, get_field}
use pihub_remote_nrf.Ble.Frames.{HidKeymap, kb_zeros, cc_zeros, compile_ble_frames}
use pihub_remote_nrf.Ble.Queue.{put_newest, drop_oldest}
use pihub_remote_nrf.Ble.Queue.Bounds.{put_newest-last}
use pihub_remote_nrf.Ble.Link.{
  Link, new_link, key_down, key_up, compiled_key_down, compiled_key_up, release_all,
}
use pihub_remote_nrf.Ble.Link.Invariant
use pihub_remote_nrf.Ble.Release.{excess, controls, release_all-tx_q}
use pihub_remote_nrf.Ble.Compiled.{compiled-eq-direct}
use pihub_remote_nrf.Ble.Rx.{take_line}
use pihub_remote_nrf.Ble.Rx.Lines.{ingest_chunks, ingest_chunks-line}
use pihub_remote_nrf.Dispatcher.State.{
  Bindings, Hold, new_dispatcher, set_mode_bindings, actions_for, cancel_hold_tasks, stop_repeat,
}
use pihub_remote_nrf.Dispatcher.Edges.{on_usb_edge, do_actions, update_press_state}
use pihub_remote_nrf.Dispatcher.Timing.{IsClear, release_clears_key}
use pihub_remote_nrf.Dispatcher.Reach
use pihub_remote_nrf.Dispatcher.Reach.{At, new-IsTimed}

abbrev hid : HidKeymap
hid = record { kb = ("up", pos 82) ∷ []; cc = ("home", pos 547) ∷ [] }

abbrev home_key : Fields
home_key =
    field "domain" (str "ble") (field "usage" (str "consumer") (field "code" (str "home") end))

abbrev off_key : Fields
off_key = field "domain" (str "flow") (
    field "action" (str "run")
      (field "name" (str "power_off") (field "min_hold_ms" (int (pos 1000)) end)))

abbrev keys : Bindings
keys = ("rem_home", home_key ∷ []) ∷ ("rem_power", off_key ∷ []) ∷ []

abbrev pub keymap : Dict Bindings
keymap = ("power_off", keys) ∷ ("watch", keys) ∷ []

-- An open link with a key and a control line in its queue.
abbrev pub link : Link
link = record (new_link hid) { is_open = true; tx_q = (2 ∷ 35 ∷ 2 ∷ []) ∷ (85 ∷ 10 ∷ []) ∷ [] }

put_newest-last_example :
    (((◌≡◌ {A = ℕ} 2 0) ⊎ (length {A = ℕ} (7 ∷ 8 ∷ []) < 2))
      × (put_newest {A = ℕ} 2 9 (7 ∷ 8 ∷ []) ≡ 7 ∷ 8 ∷ 9 ∷ []))
    ⊎ ((0 < 2)
        × (length {A = ℕ} (7 ∷ 8 ∷ []) ≡ 2)
        × (put_newest {A = ℕ} 2 9 (7 ∷ 8 ∷ []) ≡ drop_oldest {A = ℕ} (7 ∷ 8 ∷ []) ++ 9 ∷ []))
put_newest-last_example = put_newest-last {A = ℕ} 2 9 (7 ∷ 8 ∷ []) (inr (omega arith))

release_all-tx_q_example :
    (release_all link).tx_q
    ≡ drop (excess 512 (length (controls link.tx_q) + 2)) (controls link.tx_q)
      ++ kb_zeros ∷ cc_zeros ∷ []
release_all-tx_q_example = release_all-tx_q link refl (inr (omega arith)) (λ h. omega (arith, h))

compiled-eq-direct_example :
    (compiled_key_down (compile_ble_frames link.hid keys) "consumer" "home" link
      ≡ key_down "consumer" "home" link)
    × (compiled_key_up (compile_ble_frames link.hid keys) "consumer" "home" link
        ≡ key_up "consumer" "home" link)
unfolding get_field
compiled-eq-direct_example =
    compiled-eq-direct keys "consumer" "home" link (inr refl)
      (inl (inl (record { domain = refl; usage_text = refl; code_text = refl })))

ingest_chunks-line_example :
    ingest_chunks ((80 ∷ 79 ∷ []) ∷ (78 ∷ 71 ∷ 10 ∷ []) ∷ []) link
    ≡ take_line (80 ∷ 79 ∷ 78 ∷ 71 ∷ 10 ∷ []) (record link { rx_buf = [] })
ingest_chunks-line_example =
    ingest_chunks-line (80 ∷ 79 ∷ 78 ∷ 71 ∷ []) ((80 ∷ 79 ∷ []) ∷ (78 ∷ 71 ∷ 10 ∷ []) ∷ []) link
      (ground arith) (omega arith) refl refl

abbrev first : At
first = record { now = 0; dispatcher = new_dispatcher keymap link true }

abbrev in_mode : At
in_mode = record { now = 0; dispatcher = set_mode_bindings (some "power_off") first.dispatcher }

abbrev pressed : At
pressed = record {
  now = 5;
  dispatcher = (on_usb_edge "rem_power" "down" 5 in_mode.dispatcher).state;
}

abbrev hold : Hold
hold = record {
  rem_key = "rem_power";
  action_index = 0;
  min_hold_ms = 1000;
  due = 1005;
  name = "power_off";
  trigger = "remote.rem_power";
}

release_clears_key_example :
    IsClear "rem_power" (on_usb_edge "rem_power" "up" 9 first.dispatcher).state
unfolding on_usb_edge do_actions actions_for Dict.get update_press_state cancel_hold_tasks
    stop_repeat new_dispatcher
release_clears_key_example =
    release_clears_key 0 9 "rem_power" first.dispatcher (omega arith)
      (new-IsTimed keymap link true 0) refl
