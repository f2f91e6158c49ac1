-- ===== src/Dispatcher/Steady.antt =====
-- pihub/dispatcher.py: handling keys leaves the mode and its bindings as set_mode_bindings made them.
use pihub_remote_nrf.Prelude.{ℕ, String, ◌≡◌, refl, ◌==◌, ◌&&◌, ◌||◌, if_cases, if◌then◌else◌}
use pihub_remote_nrf.Prelude.Dict
use pihub_remote_nrf.Dispatcher.State.{
  Dispatcher, Hold, submit, schedule_hold_action, has_hold, actions_for, cancel_hold_tasks,
  start_repeat, stop_repeat,
}
use pihub_remote_nrf.Dispatcher.Actions.{Done, run_flow}
use pihub_remote_nrf.Dispatcher.Edges.{
  update_press_state, finish_edge, on_usb_edge, do_actions, hold_fires, repeat_round,
  repeat_actions, is_repeat_key,
}
use pihub_remote_nrf.Dispatcher.Rules.{Keeps, and_then-post, do_actions-keeps, repeat_actions-keeps}

-- What is left alone: the mode's bindings and frames.
abbrev pub Steady : Dispatcher → Dispatcher → Type 0
Steady d d' =
    (d'.mode ≡ d.mode)
    × (d'.bindings ≡ d.bindings)
    × (d'.frames_by_mode ≡ d.frames_by_mode)
    × (d'.active_bindings ≡ d.active_bindings)
    × (d'.active_frames ≡ d.active_frames)

same : (d : Dispatcher) → Steady d d
same d = (refl, refl, refl, refl, refl)

schedule-Steady :
    (h : Hold) (d d' : Dispatcher) → Steady d d' → Steady d (schedule_hold_action h d')
unfolding schedule_hold_action
schedule-Steady h d d' p = if_cases (Steady d) (has_hold h.rem_key h.action_index d'.hold_tasks) p p

Steady-Keeps :
    (d : Dispatcher) (edge rem_key : String) (now : ℕ) → Keeps (Steady d) edge rem_key now
unfolding run_flow submit
Steady-Keeps d edge rem_key now = record {
  sends = λ usage code d' p. p;
  starts = λ name trigger d' p. p;
  queues = λ job d' e p. p;
  holds = λ index min_hold name trigger d' e pos p. schedule-Steady _ d d' p;
}

update-Steady :
    (rem_key edge : String) (now : ℕ) (d : Dispatcher)
    → Steady d (update_press_state rem_key edge now d)
unfolding update_press_state cancel_hold_tasks stop_repeat
update-Steady rem_key edge now d =
    if_cases (Steady d) (edge == "down") (same d)
      (if_cases (Steady d) (edge == "up") (same d) (same d))

finish-Steady :
    (rem_key edge : String) (now : ℕ) (d d' : Dispatcher)
    → Steady d d'
    → Steady d (finish_edge rem_key edge now d').state
unfolding finish_edge start_repeat
finish-Steady rem_key edge now d d' p =
    let started =
      if edge == "down" && is_repeat_key rem_key then start_repeat rem_key now d' else d' in
    let q : Steady d started =
      if_cases (Steady d) (edge == "down" && is_repeat_key rem_key)
        (if_cases (Steady d) (Dict.has rem_key d'.repeat_tasks) p p) p in
    if_cases (Steady d) (edge == "up") q q

pub on_usb_edge-Steady :
    (rem_key edge : String) (now : ℕ) (d : Dispatcher)
    → Steady d (on_usb_edge rem_key edge now d).state
unfolding on_usb_edge
on_usb_edge-Steady rem_key edge now d =
    let d' = update_press_state rem_key edge now d in
    if_cases (λ (r : Done). Steady d r.state) (edge == "down" || edge == "up")
      (and_then-post (Steady d) (Steady d)
        (do_actions (actions_for rem_key d') edge rem_key 0 now d') (finish_edge rem_key edge now)
        (do_actions-keeps (Steady-Keeps d edge rem_key now) (actions_for rem_key d') 0 d'
          (update-Steady rem_key edge now d))
        (λ e p. p) (λ e p. finish-Steady rem_key edge now d e p))
      (same d)

repeat_round-Steady :
    (rem_key : String) (now : ℕ) (d : Dispatcher) → Steady d (repeat_round rem_key now d)
unfolding repeat_round
repeat_round-Steady rem_key now d =
    let r = repeat_actions (actions_for rem_key d) rem_key 0 now d in
    let p =
      repeat_actions-keeps (Steady-Keeps d "down" rem_key now) (actions_for rem_key d) 0 d
        (same d) in
    if_cases (Steady d) r.failed p p

hold_fires-Steady : (h : Hold) (d : Dispatcher) → Steady d (hold_fires h d)
unfolding hold_fires run_flow
hold_fires-Steady h d = if_cases (Steady d) (Dict.has h.rem_key d.pressed_at) (same d) (same d)
