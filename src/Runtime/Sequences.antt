-- ===== src/Runtime/Sequences.antt =====
-- pihub/runtime.py: run_sequence (up to where the flow's task starts, and from where it ends),
-- _flow_failed, on_device_state_change and on_cmd; and how FlowRunner.run of pihub/flows.py ends.
use Prim.Native.String.{◌++◌ as str_append}
use pihub_remote_nrf.Prelude.{
  String, Bool, true, false, Option, none, some, List, [], ◌∷◌, ◌++◌, ◌==◌, ◌&&◌, if◌then◌else◌,
}
use pihub_remote_nrf.Prelude.Text.{strip, lower, is_empty}
use pihub_remote_nrf.Prelude.Json.{Value, Fields, obj, end, get_field, truthy, text_or}
use pihub_remote_nrf.Flows.Actions.{World}
use pihub_remote_nrf.Flows.Steps.{Snapshot, Failure, Run, ended, broke, waits, run_flow}
use pihub_remote_nrf.Flows.Table.{find_flow, target_mode}
use pihub_remote_nrf.Runtime.State.{
  Engine, Sequence, flow_ok, refused, ignored, failed_flow, flow_started, flow_finished,
  flow_failed, note_trigger, set_runtime_ok, set_runtime_error, remember,
}
use pihub_remote_nrf.Runtime.Modes.{
  Called, Committed, committed, raises, commit_mode_internal, set_mode,
}

-- How the flow's task ends: FlowRunner.run returns, raises FlowStepFailures, or another exception.
pub data FlowEnd : Type 0 where
  returned : Bool → FlowEnd
  step_failures : List Failure → FlowEnd
  raised_other : String → FlowEnd

-- The text of the TypeError that formatting None with `:g` raises.
abbrev none_format_error : String
none_format_error = "unsupported format string passed to NoneType.__format__"

ended_with : List Failure → FlowEnd
ended_with [] = returned true
ended_with fs = step_failures fs

end_of_run : Run → Option FlowEnd
unfolding ended_with
end_of_run waits = none
end_of_run (broke c) = some (raised_other none_format_error)
end_of_run (ended c) = some (ended_with c.failures)

-- FlowRunner.run on a name; `none` where its task does not end.
unfoldable pub flow_end : Bool → String → Snapshot → (String → World) → Option FlowEnd
unfolding end_of_run
flow_end soundbar name snap worlds = elim (find_flow soundbar name) [
  | none ↦ some (returned false)
  | some steps ↦ end_of_run (run_flow snap worlds steps)
]

detail : List Failure → String
detail [] = ""
detail (f ∷ []) = str_append f.step_id (str_append ": " f.error)
detail (f ∷ fs) =
    str_append f.step_id (str_append ": " (str_append f.error (str_append ", " (detail fs))))

-- str(FlowStepFailures)
unfoldable pub failures_text : List Failure → String
unfolding detail
failures_text fs = str_append "flow_failed: " (detail fs)

-- A call of run_sequence comes back at once, or its flow's task has started and it waits for its end.
pub data Begun : Type 0 where
  back : Called → Begun
  waiting : Engine → Begun

abbrev busy : Engine → Called
busy e = record { engine = record e { last_result = some "busy" }; reply = ignored "runner_busy" }

abbrev begin : Sequence → Engine → Engine
begin q e =
    let e' =
      note_trigger q.trigger (record e { locked = true; flow_running = true; acted = true }) in
    record e' { active_sequence = some q; history = e.history ++ flow_started q ∷ [] }

abbrev source_or_intent : String → String
source_or_intent source = let s = strip source in if is_empty s then "intent" else s

-- run_sequence, up to its await of the flow's task.
unfoldable pub run_sequence : String → String → String → Engine → Begun
unfolding strip is_empty set_runtime_error
run_sequence name trigger source e =
    let name = strip name in
    if is_empty name
    then back (record {
      engine = set_runtime_error "flow_name_required" "invalid" e;
      reply = refused "flow name required";
    })
    else if e.locked
    then back (busy e)
    else waiting
        (begin (record { name = name; trigger = trigger; source = source_or_intent source }) e)

-- _flow_failed
unfoldable pub flow_failed_with : Sequence → String → List Failure → Engine → Called
unfolding set_runtime_error
flow_failed_with q error failures e = record {
  engine = record (set_runtime_error error "failed" e) {
    history = e.history ++ flow_failed q error ∷ [];
  };
  reply = failed_flow error failures;
}

-- {"listen_signal": "listen", "watch_signal": "watch"}.get(name, name)
unfoldable pub flow_marker : String → String
flow_marker name =
    if name == "listen_signal" then "listen" else if name == "watch_signal" then "watch" else name

-- From the committed mode to the reply.
unfoldable pub succeed : Sequence → Engine → Called
unfolding flow_marker
succeed q e =
    let e' = set_runtime_ok "ok" (remember (record e { last_flow = some (flow_marker q.name) })) in
    record {
      engine = record e' {
        history = e.history ++ flow_finished q e.mode (flow_marker q.name) ∷ [];
      };
      reply = flow_ok e.mode e'.last_flow;
    }

-- What follows the commit of the flow's mode.
unfoldable pub after_commit : Sequence → Engine → Committed → Called
unfolding succeed flow_failed_with
after_commit q e (committed e') = succeed q e'
after_commit q e (raises error) = flow_failed_with q (str_append "mode_commit_failed:" error) [] e

unfoldable pub commit_target : Sequence → Option String → Engine → Called
unfolding after_commit commit_mode_internal
commit_target q none e = succeed q e
commit_target q (some target) e = after_commit q e (commit_mode_internal target e)

-- What run_sequence does with the end of its task, before its `finally`.
unfoldable pub settle_sequence : Sequence → FlowEnd → Engine → Called
unfolding commit_target flow_failed_with failures_text
settle_sequence q (returned true) e = commit_target q (target_mode e.soundbar q.name) e
settle_sequence q (returned false) e = flow_failed_with q "flow_failed" [] e
settle_sequence q (step_failures fs) e = flow_failed_with q (failures_text fs) fs e
settle_sequence q (raised_other error) e = flow_failed_with q error [] e

-- `finally`, and the lock's release.
abbrev pub release : Engine → Engine
release e = record e { active_sequence = none; flow_running = false; locked = false }

-- run_sequence from the end of its flow's task; `none` where no flow runs.
unfoldable pub finish_sequence : FlowEnd → Engine → Option Called
unfolding settle_sequence
finish_sequence how e = elim e.active_sequence [
  | none ↦ none
  | some q ↦
      (let r = settle_sequence q how e in
        some (record { engine = release r.engine; reply = r.reply }))
]

abbrev pub signal_of : String → Option String
signal_of name =
    if name == "listen"
    then some "listen_signal"
    else if name == "watch"
    then some "watch_signal"
    else none

abbrev pub is_last_flow : String → Engine → Bool
is_last_flow name e = elim e.last_flow [ none ↦ false | some f ↦ f == name ]

abbrev ignored_already : String → String → Engine → Called
ignored_already result reason e = record {
  engine = set_runtime_ok result e;
  reply = ignored reason;
}

-- The flow of a device's state change, if it has one.
unfoldable pub run_signal : Option String → String → Engine → Begun
unfolding run_sequence set_runtime_error
run_signal none name e = back (record {
  engine = set_runtime_error "unknown_device_state_change" "invalid" e;
  reply = ignored "unknown_device_state_change";
})
run_signal (some signal) name e =
    run_sequence signal (str_append "device_state_change." name) "device_state_change" e

-- on_device_state_change
unfoldable pub on_device_state_change : String → Engine → Begun
unfolding run_signal strip is_empty set_runtime_error
on_device_state_change name e =
    let name = strip name in
    if is_empty name
    then back (record {
      engine = set_runtime_error "state_change_name_required" "invalid" e;
      reply = refused "state change name required";
    })
    else if e.locked
    then back (busy e)
    else if name == "listen" && is_last_flow "listen" e
    then back (ignored_already "ignored_already_listen" "last_flow_listen" e)
    else if name == "watch" && is_last_flow "watch" e
    then back (ignored_already "ignored_already_watch" "last_flow_watch" e)
    else run_signal (signal_of name) name e

-- What on_cmd does with args that are no object, and with those that are.
unfoldable pub from_value : Value → (Fields → Begun) → Engine → Begun
unfolding set_runtime_error
from_value (obj args) k e = k args
from_value _ k e = back (record {
  engine = set_runtime_error "args_must_be_object" "invalid" e;
  reply = refused "args must be an object";
})

-- payload.get("args") or {}
unfoldable pub with_args : Option Value → (Fields → Begun) → Engine → Begun
unfolding from_value truthy
with_args none k e = k end
with_args (some v) k e = if truthy v then from_value v k e else k end

module _ (str_of : Value → String) where
  -- What on_cmd does with a command whose args are an object.
  unfoldable pub dispatch : String → String → Fields → Engine → Begun
  unfolding run_sequence set_mode text_or get_field
  dispatch domain action args e =
      let name = text_or str_of "" (get_field "name" args) in
      let trigger = text_or str_of "http.command" (get_field "trigger" args) in
      if domain == "flow" && action == "run"
      then run_sequence name trigger "intent" e
      else if domain == "mode" && action == "set"
      then back (set_mode name trigger false e)
      else back (record {
        engine = set_runtime_error "unsupported_command" "invalid" e;
        reply = refused "unsupported_command";
      })

  abbrev pub word : String → Fields → String
  word key payload = lower (strip (text_or str_of "" (get_field key payload)))

  -- on_cmd
  unfoldable pub on_cmd : Fields → Engine → Begun
  unfolding dispatch with_args get_field
  on_cmd payload e =
      with_args (get_field "args" payload)
        (λ args. dispatch (word "domain" payload) (word "action" payload) args e) e
