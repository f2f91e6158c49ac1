-- ===== src/Runtime/Ending.antt =====
-- pihub/runtime.py: the end of a flow keeps the engine's invariant.
use Prim.Native.String.{◌++◌ as str_append}
use pihub_remote_nrf.Prelude.{
  String, ◌≡◌, refl, inr, true, false, not, Option, none, some, List, [], subst, is_some, if_cases,
  if_split,
}
use pihub_remote_nrf.Prelude.Text.{strip, is_empty}
use pihub_remote_nrf.Flows.Steps.{Failure}
use pihub_remote_nrf.Flows.Table.{target_mode}
use pihub_remote_nrf.Runtime.State.{
  Engine, Sequence, bind_mode, valid_modes, accepts, set_runtime_error,
}
use pihub_remote_nrf.Runtime.Modes.{Committed, committed, raises, commit_mode_internal}
use pihub_remote_nrf.Runtime.Sequences.{
  FlowEnd, returned, step_failures, raised_other, settle_sequence, flow_failed_with, failures_text,
  release, succeed, after_commit, commit_target,
}
use pihub_remote_nrf.Runtime.Invariant.{
  Log, finished, broken, IsValid, bind_mode-Bound, accepts-bind_mode,
}

module _ (e : Engine) (v : IsValid e) (q : Sequence) (running : e.active_sequence ≡ some q) where
  running_history : Log e.history (some q)
  running_history = subst (Log e.history) running v.log

  pub failed-IsValid :
      (error : String) (fs : List Failure)
      → IsValid (release (flow_failed_with q error fs e).engine)
  unfolding flow_failed_with set_runtime_error
  failed-IsValid error fs = record {
    one_lock = refl;
    one_flow = refl;
    bound = v.bound;
    known_mode = v.known_mode;
    kept = v.kept;
    log = broken q error running_history;
  }

  succeed-IsValid :
      (name : String)
      → accepts (valid_modes e.dispatcher) name ≡ true
      → IsValid (
          release
            (succeed q (record e { dispatcher = bind_mode name e.dispatcher; mode = name })).engine)
  unfolding succeed
  succeed-IsValid name ok = record {
    one_lock = refl;
    one_flow = refl;
    bound = bind_mode-Bound name e.dispatcher;
    known_mode = accepts-bind_mode name e.dispatcher ok;
    kept = inr refl;
    log = finished q name _ running_history;
  }

  unmoved-IsValid : IsValid (release (succeed q e).engine)
  unfolding succeed
  unmoved-IsValid = record {
    one_lock = refl;
    one_flow = refl;
    bound = v.bound;
    known_mode = v.known_mode;
    kept = inr refl;
    log = finished q e.mode _ running_history;
  }

  -- A commit fails, or it moves the engine to a mode that is accepted.
  Moves : Committed → Type 0
  Moves (raises error) = Unit
  Moves (committed e') =
      (name : String) × (accepts (valid_modes e.dispatcher) name ≡ true)
      × (record e { dispatcher = bind_mode name e.dispatcher; mode = name } ≡ e')

  commit_mode_internal-Moves : (target : String) → Moves (commit_mode_internal target e)
  unfolding commit_mode_internal Moves
  commit_mode_internal-Moves target = if_cases Moves (is_empty (strip target)) tt (
      if_cases Moves (not (is_some e.dispatcher)) tt (
        if_split Moves (accepts (valid_modes e.dispatcher) (strip target))
          (λ h. (strip target, h, refl)) (λ h. tt)))

  after_commit-IsValid : (c : Committed) → Moves c → IsValid (release (after_commit q e c).engine)
  unfolding after_commit Moves
  after_commit-IsValid (raises error) m = failed-IsValid (str_append "mode_commit_failed:" error) []
  after_commit-IsValid (committed e') (name, ok, same) =
      subst (λ x. IsValid (release (succeed q x).engine)) same (succeed-IsValid name ok)

  commit_target-IsValid :
      (target : Option String) → IsValid (release (commit_target q target e).engine)
  unfolding commit_target
  commit_target-IsValid none = unmoved-IsValid
  commit_target-IsValid (some target) =
      after_commit-IsValid (commit_mode_internal target e) (commit_mode_internal-Moves target)

  pub settle_sequence-IsValid : (how : FlowEnd) → IsValid (release (settle_sequence q how e).engine)
  unfolding settle_sequence
  settle_sequence-IsValid (returned true) = commit_target-IsValid (target_mode e.soundbar q.name)
  settle_sequence-IsValid (returned false) = failed-IsValid "flow_failed" []
  settle_sequence-IsValid (step_failures fs) = failed-IsValid (failures_text fs) fs
  settle_sequence-IsValid (raised_other error) = failed-IsValid error []
