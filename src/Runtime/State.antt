-- ===== src/Runtime/State.antt =====
-- pihub/runtime.py, RuntimeEngine's state and its small helpers. The clock times of triggers, log
-- lines and the metadata of history entries are not modelled. `saved` is what mode.json holds once
-- the mode-writer thread has caught up, and is `none` until something is saved (writing is assumed to work).
use pihub_remote_nrf.Prelude.{
  String, Bool, true, false, Option, none, some, List, [], ◌∷◌, ◌==◌, ◌||◌, if◌then◌else◌,
}
use pihub_remote_nrf.Prelude.Text.{strip, is_empty}
use pihub_remote_nrf.Prelude.Dict.{Dict}
use pihub_remote_nrf.Prelude.Json.{str, null, end, field, obj, Value, JsonFile, missing, holds}
use pihub_remote_nrf.Dispatcher.State.{Dispatcher, Bindings, set_mode_bindings}
use pihub_remote_nrf.Flows.Steps.{Failure}

-- A flow that runs: what run_sequence was called with.
pub record Sequence : Type 0 where
  pub name : String
  pub trigger : String
  pub source : String

-- What mode.json holds.
pub record Remembered : Type 0 where
  pub mode : String
  pub last_flow : Option String

-- The entries that the engine emits into the history.
pub data Event : Type 0 where
  flow_started : Sequence → Event
  flow_finished : Sequence → String → String → Event
  flow_failed : Sequence → String → Event

pub record Engine : Type 0 where
  pub dispatcher : Option Dispatcher
  -- The profile of the flow runner: the soundbar's flows, or Audio Pro's.
  pub soundbar : Bool
  pub mode : String
  pub acted : Bool
  -- `_startup_task` has still to check the mode.
  pub startup_pending : Bool
  pub last_flow : Option String
  pub flow_running : Bool
  pub last_trigger : Option String
  pub error : Bool
  pub last_error : Option String
  pub last_result : Option String
  pub locked : Bool
  pub active_sequence : Option Sequence
  pub saved : Option Remembered
  pub history : List Event

-- What a call of the engine returns, without what it repeats of its arguments.
pub data Reply : Type 0 where
  mode_set : String → Reply
  flow_ok : String → Option String → Reply
  refused : String → Reply
  ignored : String → Reply
  failed_flow : String → List Failure → Reply

abbrev pub fallback_mode : String
fallback_mode = "power_off"

-- __init__
unfoldable pub new_engine : Option Dispatcher → Bool → Engine
new_engine dispatcher soundbar = record {
  dispatcher = dispatcher;
  soundbar = soundbar;
  mode = fallback_mode;
  acted = false;
  startup_pending = false;
  last_flow = none;
  flow_running = false;
  last_trigger = none;
  error = false;
  last_error = none;
  last_result = none;
  locked = false;
  active_sequence = none;
  saved = none;
  history = [];
}

-- _note_trigger
abbrev pub note_trigger : String → Engine → Engine
note_trigger trigger e = record e { last_trigger = some trigger }

-- _set_runtime_ok
abbrev pub set_runtime_ok : String → Engine → Engine
set_runtime_ok result e = record e { error = false; last_error = none; last_result = some result }

abbrev pub stripped : String → Option String
stripped text = let s = strip text in if is_empty s then none else some s

-- _set_runtime_error
unfoldable pub set_runtime_error : String → String → Engine → Engine
unfolding strip is_empty
set_runtime_error error result e = record e {
  error = true;
  last_error = stripped error;
  last_result = some result;
}

mode_names : Dict Bindings → List String
mode_names [] = []
mode_names ((name, _) ∷ rest) = name ∷ mode_names rest

-- _valid_modes
unfoldable pub valid_modes : Option Dispatcher → List String
unfolding mode_names
valid_modes none = []
valid_modes (some d) = mode_names d.bindings

unfoldable pub member : String → List String → Bool
member name [] = false
member name (n ∷ ns) = n == name || member name ns

abbrev no_modes : List String → Bool
no_modes [] = true
no_modes (_ ∷ _) = false

-- not (valid and name not in valid)
unfoldable pub accepts : List String → String → Bool
unfolding member
accepts valid name = no_modes valid || member name valid

-- self._dispatcher.set_mode_bindings(name)
abbrev pub bind_mode : String → Option Dispatcher → Option Dispatcher
bind_mode name none = none
bind_mode name (some d) = some (set_mode_bindings (some name) d)

-- _remember, with what its thread then does.
abbrev pub remember : Engine → Engine
remember e = record e { saved = some (record { mode = e.mode; last_flow = e.last_flow }) }

or_null : Option String → Value
or_null none = null
or_null (some s) = str s

-- json.dumps of _remember, and json.load's value of it.
unfoldable pub file_of : Option Remembered → JsonFile
unfolding or_null
file_of none = missing
file_of (some r) =
    holds (obj (field "mode" (str r.mode) (field "last_flow" (or_null r.last_flow) end)))
