-- ===== src/Dispatcher/Actions.antt =====
-- pihub/dispatcher.py: what one action of a binding does on an edge (_do_action and its handlers).
use Prim.Native.String.{◌++◌ as str_append}
use pihub_remote_nrf.Prelude.{
  ℕ, ◌+◌, ◌-◌, String, Bool, true, false, not, Option, none, some, [], ◌∷◌, ◌++◌, ◌==◌, ◌&&◌, ltb,
  if◌then◌else◌,
}
use pihub_remote_nrf.Prelude.Text.{is_empty}
use pihub_remote_nrf.Prelude.Int.{ℤ, pos, negsuc}
use pihub_remote_nrf.Prelude.Dict
use pihub_remote_nrf.Prelude.Json.{Fields, get_field, text_of}
use pihub_remote_nrf.Validation.{parse_ms, Ms, given, default, raised}
use pihub_remote_nrf.Ble.Frames.{CompiledBleFrames}
use pihub_remote_nrf.Ble.Link.{Link, compiled_key_down, compiled_key_up, key_down, key_up}
use pihub_remote_nrf.Dispatcher.State.{Dispatcher, submit, schedule_hold_action}

-- The state that a handler leaves, and whether it raised there.
pub record Done : Type 0 where
  pub state : Dispatcher
  pub failed : Bool

abbrev pub done : Dispatcher → Done
done d = record { state = d; failed = false }

-- Whether an optional text is this one.
abbrev pub is_text : String → Option String → Bool
is_text s none = false
is_text s (some t) = t == s

-- a.get("when", "down"), where it is a text.
unfoldable pub when_of : Fields → Option String
when_of a = elim (get_field "when" a) [ none ↦ some "down" | some v ↦ text_of (some v) ]

unfoldable pub link_action : Option CompiledBleFrames → String → String → String → Link → Link
link_action (some frames) edge usage code l =
    if edge == "down"
    then compiled_key_down frames usage code l
    else if edge == "up"
    then compiled_key_up frames usage code l
    else l
link_action none edge usage code l =
    if edge == "down"
    then key_down usage code l
    else if edge == "up"
    then key_up usage code l
    else l

unfoldable pub ble_texts : Option String → Option String → String → Dispatcher → Dispatcher
unfolding link_action
ble_texts (some usage) (some code) edge d = record d {
  ble = link_action d.active_frames edge usage code d.ble;
}
ble_texts _ _ edge d = d

unfoldable pub handle_ble_action : Fields → String → Dispatcher → Dispatcher
unfolding ble_texts
handle_ble_action a edge d =
    ble_texts (text_of (get_field "usage" a)) (text_of (get_field "code" a)) edge d

-- The `_run` of _handle_flow_action: the flow's task is created at once.
unfoldable pub run_flow : String → String → Dispatcher → Dispatcher
run_flow name trigger d = record d {
  flows = d.flows ++ record { name = name; trigger = trigger } ∷ [];
}

abbrev pub trigger_of : String → String
trigger_of rem_key = if is_empty rem_key then "remote" else str_append "remote." rem_key

abbrev pub held_for : Option ℕ → ℕ → ℕ → Bool
held_for none now min_hold = false
held_for (some t0) now min_hold = not (ltb (now - t0) min_hold)

unfoldable pub flow_up : String → String → ℕ → ℕ → Dispatcher → Dispatcher
unfolding run_flow is_empty
flow_up name rem_key min_hold now d =
    if ltb 0 min_hold && not (is_empty rem_key)
    then if held_for (Dict.get rem_key d.pressed_at) now min_hold
      then run_flow name (trigger_of rem_key) d
      else d
    else run_flow name (trigger_of rem_key) d

unfoldable pub flow_down : String → String → ℕ → ℕ → ℕ → Dispatcher → Dispatcher
unfolding run_flow is_empty
flow_down name rem_key index min_hold now d =
    if ltb 0 min_hold
    then schedule_hold_action
        (record {
          rem_key = rem_key;
          action_index = index;
          min_hold_ms = min_hold;
          due = now + min_hold;
          name = name;
          trigger = trigger_of rem_key;
        })
        d
    else run_flow name (trigger_of rem_key) d

-- min_hold_ms as a count; None and out of range give the default 0.
abbrev pub hold_ms : ℤ → ℕ
hold_ms (pos n) = n
hold_ms (negsuc n) = 0

unfoldable pub flow_edges :
    Option String → String → String → String → ℕ → ℕ → ℕ → Dispatcher → Dispatcher
unfolding flow_up flow_down
flow_edges when edge name rem_key index min_hold now d =
    if is_text "up" when && edge == "up"
    then flow_up name rem_key min_hold now d
    else if is_text "down" when && edge == "down"
    then flow_down name rem_key index min_hold now d
    else d

unfoldable pub flow_with : Ms → Option String → String → String → String → ℕ → ℕ → Dispatcher → Done
unfolding flow_edges
flow_with raised when edge name rem_key index now d = record { state = d; failed = true }
flow_with default when edge name rem_key index now d =
    done (flow_edges when edge name rem_key index 0 now d)
flow_with (given z) when edge name rem_key index now d =
    done (flow_edges when edge name rem_key index (hold_ms z) now d)

unfoldable pub flow_named : Option String → Fields → String → String → ℕ → ℕ → Dispatcher → Done
unfolding flow_with
flow_named none a edge rem_key index now d = done d
flow_named (some name) a edge rem_key index now d =
    if is_empty name
    then done d
    else flow_with (parse_ms 0 5000 (get_field "min_hold_ms" a)) (when_of a) edge name rem_key index
        now d

unfoldable pub handle_flow_action : Fields → String → String → ℕ → ℕ → Dispatcher → Done
unfolding flow_named
handle_flow_action a edge rem_key index now d =
    if not (is_text "run" (text_of (get_field "action" a)))
    then done d
    else if not d.can_run_flow
    then done d
    else flow_named (text_of (get_field "name" a)) a edge rem_key index now d

unfoldable pub do_action : Fields → String → String → ℕ → ℕ → Dispatcher → Done
do_action a edge rem_key index now d =
    let domain = text_of (get_field "domain" a) in
    if is_text "noop" domain
    then done d
    else if not (is_text "ble" domain) && not (is_text edge (when_of a))
    then done d
    else if is_text "ble" domain
    then done (handle_ble_action a edge d)
    else if is_text "flow" domain
    then handle_flow_action a edge rem_key index now d
    else if is_text "speaker" domain && edge == "down"
    then done (submit (record { action = a; rem_key = rem_key }) d)
    else done d
