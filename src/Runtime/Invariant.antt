-- ===== src/Runtime/Invariant.antt =====
-- pihub/runtime.py: what holds of the engine between calls, and that each of its operations keeps it.
use Prim.Native.String.{◌++◌ as str_append}
use pihub_remote_nrf.Prelude.{
  String, ◌≡◌, refl, ◌⊎◌, inr, Bool, true, false, not, Option, none, some, List, [], ◌∷◌, ◌++◌,
  ◌==◌, ◌&&◌, ◌||◌, subst, arith, is_some, if_cases, if_split, if◌then◌else◌,
}
use pihub_remote_nrf.Prelude.Text.{strip, is_empty}
use pihub_remote_nrf.Prelude.Json.{
  Value, null, bool, int, float, str, arr, obj, end, Fields, get_field, truthy, text_or,
}
use pihub_remote_nrf.Dispatcher.State.{Dispatcher, bindings_of, frames_of, set_mode_bindings}
use pihub_remote_nrf.Runtime.State.{
  Engine, Sequence, Event, flow_started, flow_finished, flow_failed, Remembered, bind_mode,
  valid_modes, accepts, set_runtime_error,
}
use pihub_remote_nrf.Runtime.Modes.{Called, Reading, wanted_mode, correct_startup_mode, set_mode}
use pihub_remote_nrf.Runtime.Sequences.{
  Begun, back, waiting, run_sequence, on_device_state_change, on_cmd, is_last_flow, signal_of,
  run_signal, word, dispatch, with_args, from_value,
}

-- The dispatcher is in the mode: its bindings and its compiled frames are those of that mode.
abbrev pub Bound : Option Dispatcher → String → Type 0
Bound none mode = Unit
Bound (some d) mode =
    (d.mode ≡ some mode)
    × (d.active_bindings ≡ bindings_of (some mode) d.bindings)
    × (d.active_frames ≡ frames_of (some mode) d.frames_by_mode)

-- Flows start one after the other's end, each end is its own start's, and this one runs.
pub data Log : List Event → Option Sequence → Type 0 where
  empty : Log [] none
  begun : {h : List Event} (q : Sequence) → Log h none → Log (h ++ flow_started q ∷ []) (some q)
  finished :
      {h : List Event} (q : Sequence) (mode last_flow : String)
      → Log h (some q)
      → Log (h ++ flow_finished q mode last_flow ∷ []) none
  broken :
      {h : List Event} (q : Sequence) (error : String)
      → Log h (some q)
      → Log (h ++ flow_failed q error ∷ []) none

pub record Sound (dispatcher : Option Dispatcher) (mode : String) (last_flow : Option String)
    (flow_running locked : Bool) (active : Option Sequence) (saved : Option Remembered)
    (history : List Event) : Type 0 where
  pub one_lock : locked ≡ flow_running
  pub one_flow : flow_running ≡ is_some active
  pub bound : Bound dispatcher mode
  pub known_mode : accepts (valid_modes dispatcher) mode ≡ true
  pub kept : (saved ≡ none) ⊎ (saved ≡ some (record { mode = mode; last_flow = last_flow }))
  pub log : Log history active

-- What the status fields do not matter to.
abbrev pub IsValid : Engine → Type 0
IsValid e =
    Sound e.dispatcher e.mode e.last_flow e.flow_running e.locked e.active_sequence e.saved
      e.history

pub bind_mode-Bound : (name : String) (d : Option Dispatcher) → Bound (bind_mode name d) name
unfolding set_mode_bindings
bind_mode-Bound name none = tt
bind_mode-Bound name (some d) = (refl, refl, refl)

pub bind_mode-valid_modes :
    (name : String) (d : Option Dispatcher) → valid_modes (bind_mode name d) ≡ valid_modes d
unfolding set_mode_bindings valid_modes
bind_mode-valid_modes name none = refl
bind_mode-valid_modes name (some d) = refl

pub accepts-bind_mode :
    (name : String) (d : Option Dispatcher)
    → accepts (valid_modes d) name ≡ true
    → accepts (valid_modes (bind_mode name d)) name ≡ true
accepts-bind_mode name d h = rw (bind_mode-valid_modes name d) h

-- The engine once the call has come back, or has started its flow.
unfoldable pub engine_of : Begun → Engine
engine_of (back r) = r.engine
engine_of (waiting e) = e

module _ (e : Engine) (v : IsValid e) where
  -- The mode changes to an accepted one, and is saved.
  moved :
      (name : String) (last_flow : Option String)
      → accepts (valid_modes e.dispatcher) name ≡ true
      → Sound
          (bind_mode name e.dispatcher)
          name
          last_flow
          e.flow_running
          e.locked
          e.active_sequence
          (some (record { mode = name; last_flow = last_flow }))
          e.history
  moved name last_flow ok = record {
    one_lock = v.one_lock;
    one_flow = v.one_flow;
    bound = bind_mode-Bound name e.dispatcher;
    known_mode = accepts-bind_mode name e.dispatcher ok;
    kept = inr refl;
    log = v.log;
  }

  pub set_mode-IsValid :
      (name trigger : String) (own : Bool) → IsValid (set_mode name trigger own e).engine
  unfolding set_mode set_runtime_error
  set_mode-IsValid name trigger own =
      if_cases (λ (r : Called). IsValid r.engine) (is_empty (strip name)) v
        (if_cases (λ (r : Called). IsValid r.engine) (not (is_some e.dispatcher)) v
          (if_cases (λ (r : Called). IsValid r.engine) (e.flow_running && not own) v
            (if_split (λ (r : Called). IsValid r.engine)
              (not (accepts (valid_modes e.dispatcher) (strip name))) (λ h. v)
              (λ h. moved (strip name) e.last_flow (ground arith)))))

  pub correct_startup_mode-IsValid :
      (tv speaker : Option Reading) → IsValid (correct_startup_mode tv speaker e)
  unfolding correct_startup_mode
  correct_startup_mode-IsValid tv speaker =
      if_cases IsValid (e.acted || e.flow_running) v (by_wanted (wanted_mode tv speaker))
    where
      by_wanted :
          (w : Option String)
          → IsValid (elim w [
            | none ↦ record e { startup_pending = false }
            | some want ↦
                if want == e.mode || not (accepts (valid_modes e.dispatcher) want)
                then record e { startup_pending = false }
                else record e {
                  startup_pending = false;
                  dispatcher = bind_mode want e.dispatcher;
                  mode = want;
                  last_flow = some want;
                  saved = some (record { mode = want; last_flow = some want });
                }
          ])
      by_wanted none = v
      by_wanted (some want) =
          if_split IsValid (want == e.mode || not (accepts (valid_modes e.dispatcher) want))
            (λ h. v) (λ h. moved want (some want) (ground arith))

  pub run_sequence-IsValid :
      (name trigger source : String) → IsValid (engine_of (run_sequence name trigger source e))
  unfolding run_sequence set_runtime_error engine_of
  run_sequence-IsValid name trigger source =
      if_cases (λ r. IsValid (engine_of r)) (is_empty (strip name)) v
        (if_split (λ r. IsValid (engine_of r)) e.locked (λ h. v)
          (λ h. record {
            one_lock = refl;
            one_flow = refl;
            bound = v.bound;
            known_mode = v.known_mode;
            kept = v.kept;
            log = begun _ (idle h v.log);
          }))
    where
      idle : e.locked ≡ false → Log e.history e.active_sequence → Log e.history none
      idle h log =
          subst (Log e.history) (none_of e.active_sequence (ground (arith, v.one_lock, v.one_flow)))
            log
        where
          none_of : (a : Option Sequence) → is_some a ≡ false → a ≡ none
          none_of none h = refl
          none_of (some q) h = absurd (ground arith)

  run_signal-IsValid :
      (s : Option String) (name : String) → IsValid (engine_of (run_signal s name e))
  unfolding run_signal set_runtime_error engine_of
  run_signal-IsValid none name = v
  run_signal-IsValid (some s) name =
      run_sequence-IsValid s (str_append "device_state_change." name) "device_state_change"

  pub on_device_state_change-IsValid :
      (name : String) → IsValid (engine_of (on_device_state_change name e))
  unfolding on_device_state_change set_runtime_error engine_of
  on_device_state_change-IsValid name =
      if_cases (λ r. IsValid (engine_of r)) (is_empty (strip name)) v
        (if_cases (λ r. IsValid (engine_of r)) e.locked v
          (if_cases (λ r. IsValid (engine_of r)) (strip name == "listen" && is_last_flow "listen" e)
            v
            (if_cases (λ r. IsValid (engine_of r)) (strip name == "watch" && is_last_flow "watch" e)
              v (run_signal-IsValid (signal_of (strip name)) (strip name)))))

  dispatch-IsValid :
      (str_of : Value → String) (domain action : String) (args : Fields)
      → IsValid (engine_of (dispatch str_of domain action args e))
  unfolding dispatch set_runtime_error engine_of
  dispatch-IsValid str_of domain action args =
      if_cases (λ r. IsValid (engine_of r)) (domain == "flow" && action == "run")
        (run_sequence-IsValid (text_or str_of "" (get_field "name" args))
          (text_or str_of "http.command" (get_field "trigger" args)) "intent")
        (if_cases (λ r. IsValid (engine_of r)) (domain == "mode" && action == "set")
          (set_mode-IsValid (text_or str_of "" (get_field "name" args))
            (text_or str_of "http.command" (get_field "trigger" args)) false)
          v)

  with_args-IsValid :
      (args : Option Value) (k : Fields → Begun)
      → ((fs : Fields) → IsValid (engine_of (k fs)))
      → IsValid (engine_of (with_args args k e))
  unfolding with_args from_value set_runtime_error engine_of
  with_args-IsValid none k h = h end
  with_args-IsValid (some x) k h =
      if_cases (λ r. IsValid (engine_of r)) (truthy x) (of_value x) (h end)
    where
      of_value : (x : Value) → IsValid (engine_of (from_value x k e))
      of_value null = v
      of_value (bool _) = v
      of_value (int _) = v
      of_value (float _) = v
      of_value (str _) = v
      of_value (arr _) = v
      of_value (obj fs) = h fs

  pub on_cmd-IsValid :
      (str_of : Value → String) (payload : Fields) → IsValid (engine_of (on_cmd str_of payload e))
  unfolding on_cmd
  on_cmd-IsValid str_of payload = with_args-IsValid (get_field "args" payload) _ (λ args.
      dispatch-IsValid str_of (word str_of "domain" payload) (word str_of "action" payload) args)
