-- ===== src/Dispatcher/Edges.antt =====
-- pihub/dispatcher.py: key edges, and what the dispatcher's tasks do when their time comes.
use pihub_remote_nrf.Prelude.{
  ℕ, ◌+◌, String, Bool, not, List, [], ◌∷◌, ◌==◌, ◌&&◌, ◌||◌, nat_eq, keep_if, if◌then◌else◌,
}
use pihub_remote_nrf.Prelude.Dict
use pihub_remote_nrf.Prelude.Json.{Fields, get_field, text_of}
use pihub_remote_nrf.Dispatcher.State.{
  Dispatcher, Hold, repeat_rate_ms, actions_for, start_repeat, stop_repeat, cancel_hold_tasks,
}
use pihub_remote_nrf.Dispatcher.Actions.{Done, done, is_text, when_of, run_flow, do_action}

-- Go on unless the handler raised.
abbrev pub and_then : Done → (Dispatcher → Done) → Done
and_then r k = if r.failed then r else k r.state

-- The actions of a key in order, each with its index.
unfoldable pub do_actions : List Fields → String → String → ℕ → ℕ → Dispatcher → Done
do_actions [] edge rem_key index now d = done d
do_actions (a ∷ rest) edge rem_key index now d =
    and_then (do_action a edge rem_key index now d) (do_actions rest edge rem_key (index + 1) now)

-- What _update_press_state does to the state; it returns True on exactly these two edges.
unfoldable pub update_press_state : String → String → ℕ → Dispatcher → Dispatcher
update_press_state rem_key edge now d =
    if edge == "down"
    then cancel_hold_tasks rem_key (record d { pressed_at = Dict.put rem_key now d.pressed_at })
    else if edge == "up"
    then cancel_hold_tasks rem_key (stop_repeat rem_key d)
    else d

abbrev pub is_repeat_key : String → Bool
is_repeat_key rem_key = rem_key == "rem_vol_up" || rem_key == "rem_vol_down"

-- The end of on_usb_edge: the forced repeat on down, the press time dropped on up.
unfoldable pub finish_edge : String → String → ℕ → Dispatcher → Done
finish_edge rem_key edge now d =
    let d' = if edge == "down" && is_repeat_key rem_key then start_repeat rem_key now d else d in
    done (if edge == "up" then record d' { pressed_at = Dict.remove rem_key d'.pressed_at } else d')

unfoldable pub on_usb_edge : String → String → ℕ → Dispatcher → Done
unfolding finish_edge
on_usb_edge rem_key edge now d =
    if edge == "down" || edge == "up"
    then (let d' = update_press_state rem_key edge now d in
        and_then (do_actions (actions_for rem_key d') edge rem_key 0 now d')
          (finish_edge rem_key edge now))
    else done d

-- One round of a repeat's runner: the actions that are not BLE and fire on down.
unfoldable pub repeat_actions : List Fields → String → ℕ → ℕ → Dispatcher → Done
repeat_actions [] rem_key index now d = done d
repeat_actions (a ∷ rest) rem_key index now d =
    and_then
      (if is_text "ble" (text_of (get_field "domain" a)) || not (is_text "down" (when_of a))
        then done d
        else do_action a "down" rem_key index now d)
      (repeat_actions rest rem_key (index + 1) now)

-- A round of the repeat of `rem_key` at its time; a round that raises ends the repeat's runner, and
-- the next round's time is never set.
unfoldable pub repeat_round : String → ℕ → Dispatcher → Dispatcher
repeat_round rem_key now d =
    let r = repeat_actions (actions_for rem_key d) rem_key 0 now d in
    if r.failed then r.state else record r.state {
      repeat_tasks = Dict.put rem_key (now + repeat_rate_ms) r.state.repeat_tasks;
    }

-- A hold's runner after its delay: the flow starts if the key is still down, and the hold is gone.
unfoldable pub hold_fires : Hold → Dispatcher → Dispatcher
hold_fires h d =
    let d' = record d {
      hold_tasks =
          keep_if (λ g. not (g.rem_key == h.rem_key && nat_eq g.action_index h.action_index))
            d.hold_tasks;
    } in
    if Dict.has h.rem_key d.pressed_at then run_flow h.name h.trigger d' else d'
