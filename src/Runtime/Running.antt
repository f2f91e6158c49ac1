-- ===== src/Runtime/Running.antt =====
-- pihub/runtime.py: what a flow that runs, and one that failed, leave alone.
use pihub_remote_nrf.Prelude.{
  String, ◌≡◌, refl, ap, ◌∙◌, ◌≢◌, ◌⊎◌, inl, inr, true, false, not, Option, none, some, List, [],
  ◌∷◌, ◌++◌, ◌==◌, ◌&&◌, ◌||◌, arith, is_some, if_cases, if_split,
}
use pihub_remote_nrf.Prelude.Text.{strip, is_empty}
use pihub_remote_nrf.Prelude.Json.{
  Value, Fields, null, bool, int, float, str, arr, obj, end, get_field, truthy, text_or,
}
use pihub_remote_nrf.Flows.Steps.{Failure}
use pihub_remote_nrf.Runtime.State.{
  Engine, Sequence, flow_failed, failed_flow, stripped, set_runtime_error,
}
use pihub_remote_nrf.Runtime.Modes.{Called, Reading, correct_startup_mode, set_mode}
use pihub_remote_nrf.Runtime.Sequences.{
  Begun, FlowEnd, returned, step_failures, raised_other, run_sequence, on_device_state_change,
  on_cmd, dispatch, word, with_args, from_value, finish_sequence, settle_sequence, flow_failed_with,
  failures_text,
}
use pihub_remote_nrf.Runtime.Invariant.{IsValid, engine_of}
use pihub_remote_nrf.Runtime.Reach.{Step, mode, flow, device, command, flow_ends, startup, keys}

-- What mode, flow and history come to, and who runs.
abbrev pub SameRun : Engine → Engine → Type 0
SameRun e t =
    (t.mode ≡ e.mode)
    × (t.last_flow ≡ e.last_flow)
    × (t.active_sequence ≡ e.active_sequence)
    × (t.saved ≡ e.saved)
    × (t.history ≡ e.history)
    × (t.locked ≡ e.locked)

abbrev unchanged : (e : Engine) → SameRun e e
unchanged e = (refl, refl, refl, refl, refl, refl)

module _ (e : Engine) (locked : e.locked ≡ true) (running : e.flow_running ≡ true) where
  set_mode-SameRun : (name trigger : String) → SameRun e (set_mode name trigger false e).engine
  unfolding set_mode set_runtime_error
  set_mode-SameRun name trigger =
      if_cases (λ (r : Called). SameRun e r.engine) (is_empty (strip name)) (unchanged e)
        (if_cases (λ (r : Called). SameRun e r.engine) (not (is_some e.dispatcher)) (unchanged e)
          (if_split (λ (r : Called). SameRun e r.engine) (e.flow_running && not false)
            (λ h. unchanged e) (λ h. absurd (ground arith))))

  run_sequence-SameRun :
      (name trigger source : String) → SameRun e (engine_of (run_sequence name trigger source e))
  unfolding run_sequence set_runtime_error engine_of
  run_sequence-SameRun name trigger source =
      if_cases (λ r. SameRun e (engine_of r)) (is_empty (strip name)) (unchanged e)
        (if_split (λ r. SameRun e (engine_of r)) e.locked (λ h. unchanged e)
          (λ h. absurd (ground arith)))

  device-SameRun : (name : String) → SameRun e (engine_of (on_device_state_change name e))
  unfolding on_device_state_change set_runtime_error engine_of
  device-SameRun name =
      if_cases (λ r. SameRun e (engine_of r)) (is_empty (strip name)) (unchanged e)
        (if_split (λ r. SameRun e (engine_of r)) e.locked (λ h. unchanged e)
          (λ h. absurd (ground arith)))

  dispatch-SameRun :
      (str_of : Value → String) (domain action : String) (args : Fields)
      → SameRun e (engine_of (dispatch str_of domain action args e))
  unfolding dispatch set_runtime_error engine_of
  dispatch-SameRun str_of domain action args =
      let name = text_or str_of "" (get_field "name" args) in
      let trigger = text_or str_of "http.command" (get_field "trigger" args) in
      if_cases (λ r. SameRun e (engine_of r)) (domain == "flow" && action == "run")
        (run_sequence-SameRun name trigger "intent")
        (if_cases (λ r. SameRun e (engine_of r)) (domain == "mode" && action == "set")
          (set_mode-SameRun name trigger) (unchanged e))

  from_value-SameRun :
      (x : Value) (k : Fields → Begun)
      → ((fs : Fields) → SameRun e (engine_of (k fs)))
      → SameRun e (engine_of (from_value x k e))
  unfolding from_value set_runtime_error engine_of
  from_value-SameRun null k h = unchanged e
  from_value-SameRun (bool _) k h = unchanged e
  from_value-SameRun (int _) k h = unchanged e
  from_value-SameRun (float _) k h = unchanged e
  from_value-SameRun (str _) k h = unchanged e
  from_value-SameRun (arr _) k h = unchanged e
  from_value-SameRun (obj fs) k h = h fs

  with_args-SameRun :
      (args : Option Value) (k : Fields → Begun)
      → ((fs : Fields) → SameRun e (engine_of (k fs)))
      → SameRun e (engine_of (with_args args k e))
  unfolding with_args
  with_args-SameRun none k h = h end
  with_args-SameRun (some x) k h =
      if_cases (λ r. SameRun e (engine_of r)) (truthy x) (from_value-SameRun x k h) (h end)

  on_cmd-SameRun :
      (str_of : Value → String) (payload : Fields) → SameRun e (engine_of (on_cmd str_of payload e))
  unfolding on_cmd
  on_cmd-SameRun str_of payload = with_args-SameRun (get_field "args" payload) _ (λ args.
      dispatch-SameRun str_of (word str_of "domain" payload) (word str_of "action" payload) args)

  startup-SameRun : (tv speaker : Option Reading) → SameRun e (correct_startup_mode tv speaker e)
  unfolding correct_startup_mode
  startup-SameRun tv speaker =
      if_split (SameRun e) (e.acted || e.flow_running) (λ h. unchanged e)
        (λ h. absurd (ground arith))

-- A step is the end of the flow that runs.
abbrev pub Ends : {str_of : Value → String} {e t : Engine} → Step str_of e t → Type 0
Ends (flow_ends how r e h) = Unit
Ends _ = ⊥

-- While a flow runs (in any state that satisfies the invariant), every step but that flow's own end
-- leaves the mode, the last flow, the flow that runs, what is saved and the history as they are, and the lock held.
pub running_flow-SameRun :
    (str_of : Value → String) (e t : Engine) (q : Sequence) (st : Step str_of e t)
    → IsValid e
    → e.active_sequence ≡ some q
    → Ends st ⊎ SameRun e t
running_flow-SameRun str_of e t q st v active = by_step e t st (v.one_lock ∙ busy) busy
  where
    busy : e.flow_running ≡ true
    busy = v.one_flow ∙ ap is_some active

    by_step :
        (e t : Engine) (st : Step str_of e t)
        → e.locked ≡ true
        → e.flow_running ≡ true
        → Ends st ⊎ SameRun e t
    by_step _ _ (mode name trigger e) l r = inr (set_mode-SameRun e l r name trigger)
    by_step _ _ (flow name trigger source e) l r =
        inr (run_sequence-SameRun e l r name trigger source)
    by_step _ _ (device name e) l r = inr (device-SameRun e l r name)
    by_step _ _ (command payload e) l r = inr (on_cmd-SameRun e l r str_of payload)
    by_step _ _ (flow_ends how r e h) l r' = inl tt
    by_step _ _ (startup tv speaker e h) l r = inr (startup-SameRun e l r tv speaker)
    by_step _ _ (keys d d' e is_d same) l r = inr (unchanged e)

-- The text that a flow's end that is no success leaves.
unfoldable pub end_error : FlowEnd → String
end_error (returned _) = "flow_failed"
end_error (step_failures fs) = failures_text fs
end_error (raised_other error) = error

unfoldable pub end_failures : FlowEnd → List Failure
end_failures (step_failures fs) = fs
end_failures _ = []

-- A flow that returns False, raises FlowStepFailures or another exception leaves the mode, its
-- bindings, the last flow and what is saved as they are, records its error in the status, the
-- history and its reply, and no flow runs afterwards.
pub failed_flow_lem :
    (e : Engine) (q : Sequence) (how : FlowEnd)
    → e.active_sequence ≡ some q
    → how ≢ returned true
    → finish_sequence how e
      ≡ some (record {
        engine = record e {
          error = true;
          last_error = stripped (end_error how);
          last_result = some "failed";
          history = e.history ++ flow_failed q (end_error how) ∷ [];
          active_sequence = none;
          flow_running = false;
          locked = false;
        };
        reply = failed_flow (end_error how) (end_failures how);
      })
unfolding finish_sequence settle_sequence flow_failed_with set_runtime_error end_error end_failures
failed_flow_lem e q (returned true) active fails = absurd (fails refl)
failed_flow_lem e q (returned false) active fails = rw (active, finish_sequence)
failed_flow_lem e q (step_failures fs) active fails = rw (active, finish_sequence)
failed_flow_lem e q (raised_other error) active fails = rw (active, finish_sequence)
