-- ===== src/Runtime/Reach.antt =====
-- pihub/runtime.py: every sequence of calls, flow ends, start-up checks and moves of the dispatcher
-- that follows the engine's start. What a flow's task does in between is its end alone.
use pihub_remote_nrf.Prelude.{
  String, ◌≡◌, refl, sym, ap, ◌∙◌, inl, Bool, true, false, Option, none, some, arith, subst,
  if_split,
}
use pihub_remote_nrf.Prelude.Json.{Value, Fields, JsonFile}
use pihub_remote_nrf.Dispatcher.State.{Dispatcher, bindings_of, frames_of}
use pihub_remote_nrf.Dispatcher.Steady.{Steady}
use pihub_remote_nrf.Runtime.State.{Engine, Sequence, new_engine, valid_modes, accepts}
use pihub_remote_nrf.Runtime.Modes.{
  Called, Reading, start, start_with, checked, load_remembered, correct_startup_mode, set_mode,
}
use pihub_remote_nrf.Runtime.Sequences.{
  FlowEnd, run_sequence, on_device_state_change, on_cmd, finish_sequence, settle_sequence, release,
}
use pihub_remote_nrf.Runtime.Ending.{settle_sequence-IsValid}
use pihub_remote_nrf.Runtime.Invariant.{
  Bound, empty, IsValid, engine_of, bind_mode-Bound, accepts-bind_mode, set_mode-IsValid,
  correct_startup_mode-IsValid, run_sequence-IsValid, on_device_state_change-IsValid,
  on_cmd-IsValid,
}

-- What can happen to the engine. When the dispatcher handles keys it leaves the mode's bindings alone
-- (Dispatcher.Steady). Nobody but the flow's own task could change the mode while it
-- runs, and no flow does.
pub data Step (str_of : Value → String) : Engine → Engine → Type 0 where
  mode : (name trigger : String) (e : Engine) → Step str_of e (set_mode name trigger false e).engine
  flow :
      (name trigger source : String) (e : Engine)
      → Step str_of e (engine_of (run_sequence name trigger source e))
  device : (name : String) (e : Engine) → Step str_of e (engine_of (on_device_state_change name e))
  command : (payload : Fields) (e : Engine) → Step str_of e (engine_of (on_cmd str_of payload e))
  flow_ends :
      (how : FlowEnd) (r : Called) (e : Engine)
      → finish_sequence how e ≡ some r
      → Step str_of e r.engine
  startup :
      (tv speaker : Option Reading) (e : Engine)
      → e.startup_pending ≡ true
      → Step str_of e (correct_startup_mode tv speaker e)
  keys :
      (d d' : Dispatcher) (e : Engine)
      → e.dispatcher ≡ some d
      → Steady d d'
      → Step str_of e (record e { dispatcher = some d' })

pub data Reach (str_of : Value → String) (e : Engine) : Engine → Type 0 where
  here : Reach str_of e e
  next : {t u : Engine} → Reach str_of e t → Step str_of t u → Reach str_of e u

finish_sequence-IsValid :
    (how : FlowEnd) (r : Called) (e : Engine)
    → finish_sequence how e ≡ some r
    → IsValid e
    → IsValid r.engine
unfolding finish_sequence
finish_sequence-IsValid how r e h v = by_active e.active_sequence refl h
  where
    by_active :
        (a : Option Sequence)
        → e.active_sequence ≡ a
        → (elim a [
          | none ↦ none
          | some q ↦ some (record {
            engine = release (settle_sequence q how e).engine;
            reply = (settle_sequence q how e).reply;
          })
        ])
          ≡ some r
        → IsValid r.engine
    by_active none same h = absurd (ground arith)
    by_active (some q) same h =
        subst IsValid (ap (λ o. elim o [ none ↦ e | some c ↦ c.engine ]) h)
          (settle_sequence-IsValid e v q same how)

keys-IsValid :
    (d d' : Dispatcher) (e : Engine)
    → e.dispatcher ≡ some d
    → Steady d d'
    → IsValid e
    → IsValid (record e { dispatcher = some d' })
unfolding valid_modes
keys-IsValid d d' e is_d same v =
    let b = subst (λ o. Bound o e.mode) is_d v.bound in
    record {
      one_lock = v.one_lock;
      one_flow = v.one_flow;
      bound = (
        same.0 ∙ b.0,
        same.3 ∙ b.1 ∙ ap (bindings_of (some e.mode)) (sym same.1),
        same.4 ∙ b.2 ∙ ap (frames_of (some e.mode)) (sym same.2),
      );
      known_mode =
          ap (λ b. accepts (valid_modes (some (record d { bindings = b }))) e.mode) same.1
          ∙ subst (λ o. accepts (valid_modes o) e.mode ≡ true) is_d v.known_mode;
      kept = v.kept;
      log = v.log;
    }

Step-IsValid : {str_of : Value → String} {e t : Engine} → Step str_of e t → IsValid e → IsValid t
Step-IsValid (mode name trigger e) v = set_mode-IsValid e v name trigger false
Step-IsValid (flow name trigger source e) v = run_sequence-IsValid e v name trigger source
Step-IsValid (device name e) v = on_device_state_change-IsValid e v name
Step-IsValid (command payload e) v = on_cmd-IsValid e v _ payload
Step-IsValid (flow_ends how r e h) v = finish_sequence-IsValid how r e h v
Step-IsValid (startup tv speaker e h) v = correct_startup_mode-IsValid e v tv speaker
Step-IsValid (keys d d' e is_d same) v = keys-IsValid d d' e is_d same v

Reach-IsValid : {str_of : Value → String} {e t : Engine} → IsValid e → Reach str_of e t → IsValid t
Reach-IsValid v here = v
Reach-IsValid v (next r st) = Step-IsValid st (Reach-IsValid v r)

start-IsValid :
    (str_of : Value → String) (file : JsonFile) (d : Option Dispatcher) (soundbar : Bool)
    → accepts (valid_modes d) "power_off" ≡ true
    → IsValid (start str_of file (new_engine d soundbar))
unfolding start start_with checked new_engine
start-IsValid str_of file d soundbar ok =
    if_split (λ (l : String × Option String). IsValid (start_with str_of l (new_engine d soundbar)))
      (accepts (valid_modes d) (load_remembered str_of file).0)
      (λ h. started (load_remembered str_of file) h) (λ h. started ("power_off", none) ok)
  where
    started :
        (l : String × Option String)
        → accepts (valid_modes d) l.0 ≡ true
        → IsValid (start_with str_of l (new_engine d soundbar))
    started (first, last_flow) h = record {
      one_lock = refl;
      one_flow = refl;
      bound = bind_mode-Bound first d;
      known_mode = accepts-bind_mode first d h;
      kept = inl refl;
      log = empty;
    }

-- After start-up on any mode file, with a keymap that has the mode power_off (or none), whatever
-- calls, flow ends, start-up checks and dispatcher moves follow: the lock is held exactly while a
-- flow runs; flows start one after the end of the one before, and each end in the history is that
-- of the flow that was started last; the dispatcher's mode is the engine's, which is one of the
-- keymap's, and its active bindings and compiled frames are those of that mode; and what is saved, if anything, is the current mode and last flow.
pub reachable_engine-IsValid :
    (str_of : Value → String) (file : JsonFile) (d : Option Dispatcher) (soundbar : Bool)
    (t : Engine)
    → accepts (valid_modes d) "power_off" ≡ true
    → Reach str_of (start str_of file (new_engine d soundbar)) t
    → IsValid t
reachable_engine-IsValid str_of file d soundbar t ok r =
    Reach-IsValid (start-IsValid str_of file d soundbar ok) r
