-- ===== src/Examples/RuntimeRuns.antt =====
-- Runs of pihub/flows.py's flows and of pihub/runtime.py's engine.
use pihub_remote_nrf.Prelude.{
  String, ◌≡◌, refl, ◌⊎◌, ◌≢◌, true, false, Option, none, some, [], ◌∷◌, ◌++◌, arith, map,
}
use pihub_remote_nrf.Prelude.Json.{Value, missing}
use pihub_remote_nrf.Dispatcher.State.{Dispatcher, new_dispatcher, set_mode_bindings}
use pihub_remote_nrf.Dispatcher.Edges.{on_usb_edge}
use pihub_remote_nrf.Dispatcher.Steady.{on_usb_edge-Steady}
use pihub_remote_nrf.Slots.{Settings, resolve_slot, listen_slot}
use pihub_remote_nrf.Slots.Listen.{stream_target, resolve_slot-listen_slot}
use pihub_remote_nrf.Flows.Actions.{
  World, Call, leave_native_multiroom, Answer, returns, raises_timeout, run_action,
}
use pihub_remote_nrf.Flows.Steps.{Snapshot, ended, broke, run_flow, new_report, skips, await_end}
use pihub_remote_nrf.Flows.Table.{stop_step, leave_step, settle_step, soundbar_listen_signal}
use pihub_remote_nrf.Flows.Report.{
  part, context, await_failures, settle_failures, all_started, first_reports, final_report,
  run_flow_lem,
}
use pihub_remote_nrf.Flows.Breaks.{timeout_without_limit-breaks}
use pihub_remote_nrf.Runtime.State.{
  Engine, accepts, valid_modes, Sequence, new_engine, file_of, flow_failed, failed_flow, stripped,
}
use pihub_remote_nrf.Runtime.Modes.{start, set_mode}
use pihub_remote_nrf.Runtime.Sequences.{returned, raised_other, run_sequence, finish_sequence}
use pihub_remote_nrf.Runtime.Invariant.{IsValid, engine_of}
use pihub_remote_nrf.Runtime.Reach
use pihub_remote_nrf.Runtime.Reach.{Step, reachable_engine-IsValid}
use pihub_remote_nrf.Runtime.Running.{
  SameRun, running_flow-SameRun, end_error, end_failures, failed_flow_lem,
}
use pihub_remote_nrf.Runtime.Restart.{restored, restart_restores}
use pihub_remote_nrf.Examples.BleRuns.{keymap, link}

-- The TV is on; the speaker plays in a group.
abbrev in_group : Snapshot
in_group = record {
  tv_is_on = true;
  tv_is_frame = false;
  speaker_source = "wifi";
  speaker_is_multiroom_guest = false;
  speaker_is_multiroom_host = true;
}

abbrev answer : Call → Answer
answer leave_native_multiroom = raises_timeout
answer _ = returns true

-- Every device is there, but leaving the group times out.
abbrev world : World
world = record {
  speaker = some (record { ready = true; reachable = true; connected = true; last_error = "" });
  ble = some (record { ready = true; transport_open = true; connected = true; last_error = "" });
  tv = some true;
  settings = none;
  speaker_backend = "audiopro";
  answer = answer;
}

abbrev worlds : String → World
worlds _ = world

run_flow_lem_example :
    run_flow in_group worlds soundbar_listen_signal
    ≡ ended (
        context
          (await_failures in_group worlds soundbar_listen_signal
            ++ settle_failures in_group worlds soundbar_listen_signal)
          (all_started in_group worlds 0 soundbar_listen_signal)
          (map (λ s. final_report s (part in_group worlds s)) soundbar_listen_signal))
unfolding part skips await_end run_action soundbar_listen_signal
run_flow_lem_example = run_flow_lem in_group worlds soundbar_listen_signal (tt, (tt, tt))

timeout_without_limit-breaks_example :
    run_flow in_group worlds (stop_step ∷ leave_step ∷ settle_step ∷ [])
    ≡ broke (
        context
          (await_failures in_group worlds (stop_step ∷ []))
          (all_started in_group worlds 0 (stop_step ∷ []))
          (first_reports in_group worlds (stop_step ∷ []) ++ new_report leave_step ∷ []))
unfolding part skips await_end run_action
timeout_without_limit-breaks_example =
    timeout_without_limit-breaks in_group worlds (stop_step ∷ []) leave_step (settle_step ∷ [])
      (tt, tt) refl refl refl refl

-- Python's text of a value that is no text: any will do here.
abbrev str_of : Value → String
str_of _ = "?"

abbrev room : Option Dispatcher
room = some (new_dispatcher keymap link true)

abbrev started : Engine
started = start str_of missing (new_engine room true)

abbrev watching : Engine
watching = (set_mode "watch" "http" false started).engine

abbrev in_flow : Engine
in_flow = engine_of (run_sequence "power_off" "http" "intent" watching)

abbrev sequence : Sequence
sequence = record { name = "power_off"; trigger = "http"; source = "intent" }

abbrev path : Reach.Reach str_of started in_flow
path =
    Reach.next (Reach.next Reach.here (Reach.mode "watch" "http" started))
      (Reach.flow "power_off" "http" "intent" watching)

-- Then a key goes down.
abbrev pressed : Dispatcher → Dispatcher
pressed d = (on_usb_edge "rem_ok" "down" 40 d).state

abbrev in_room : Dispatcher
in_room =
    set_mode_bindings (some "watch")
      (set_mode_bindings (some "power_off") (new_dispatcher keymap link true))

abbrev key_down : Engine
key_down = record in_flow { dispatcher = some (pressed in_room) }

key_step : Step str_of in_flow key_down
unfolding accepts valid_modes new_dispatcher engine_of run_sequence set_mode start new_engine
    set_mode_bindings
key_step =
    Reach.keys in_room (pressed in_room) in_flow refl
      (on_usb_edge-Steady "rem_ok" "down" 40 in_room)

reachable_engine-IsValid_example : IsValid key_down
unfolding accepts valid_modes new_dispatcher
reachable_engine-IsValid_example =
    reachable_engine-IsValid str_of missing room true key_down refl (Reach.next path key_step)

running_flow-SameRun_example : ⊥ ⊎ SameRun in_flow (set_mode "watch" "web" false in_flow).engine
unfolding accepts valid_modes new_dispatcher engine_of run_sequence set_mode start new_engine
    set_mode_bindings
running_flow-SameRun_example =
    running_flow-SameRun str_of in_flow (set_mode "watch" "web" false in_flow).engine sequence
      (Reach.mode "watch" "web" in_flow)
      (reachable_engine-IsValid str_of missing room true in_flow refl path) refl

not_returned : raised_other "lost" ≢ returned true
not_returned p = ground arith

failed_flow_lem_example :
    finish_sequence (raised_other "lost") in_flow
    ≡ some (record {
      engine = record in_flow {
        error = true;
        last_error = stripped "lost";
        last_result = some "failed";
        history = in_flow.history ++ flow_failed sequence "lost" ∷ [];
        active_sequence = none;
        flow_running = false;
        locked = false;
      };
      reply = failed_flow "lost" [];
    })
unfolding accepts valid_modes new_dispatcher engine_of run_sequence set_mode start new_engine
    set_mode_bindings end_error end_failures
failed_flow_lem_example = failed_flow_lem in_flow sequence (raised_other "lost") refl not_returned

restart_restores_example :
    ((start str_of (file_of in_flow.saved) (new_engine room true)).mode ≡ in_flow.mode)
    × ((start str_of (file_of in_flow.saved) (new_engine room true)).last_flow
        ≡ some (restored in_flow.mode in_flow.last_flow))
unfolding accepts valid_modes new_dispatcher engine_of run_sequence set_mode start new_engine
    set_mode_bindings
restart_restores_example =
    restart_restores str_of in_flow (record { mode = "watch"; last_flow = none }) room true
      (reachable_engine-IsValid str_of missing room true in_flow refl path) refl refl

-- A listen target on the second stream.
abbrev settings : Settings
settings = record {
  get_watch_volume_pct = 20;
  get_listen_volume_pct = 15;
  listen_target_type = "stream";
  listen_target_preset = 1;
  listen_target_stream = 2;
  get_stream_url = λ n. "http://radio";
  get_soundbar_stream_url = λ n. "";
  get_soundbar_restream = λ n. false;
}

resolve_slot-listen_slot_example :
    resolve_slot settings "audiopro" (listen_slot settings "audiopro")
    ≡ some (stream_target settings 2)
resolve_slot-listen_slot_example =
    resolve_slot-listen_slot settings "audiopro" refl refl (omega arith)
