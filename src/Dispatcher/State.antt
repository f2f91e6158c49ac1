-- ===== src/Dispatcher/State.antt =====
-- pihub/dispatcher.py: the dispatcher's state, the mode's bindings, and the tasks it keeps: repeats,
-- delayed holds and the speaker's queue. Time is the event loop's, in milliseconds; a task is what
-- it will do and from when, so cancelling one is taking it off its list. Log lines are not modelled.
use pihub_remote_nrf.Prelude.{
  ℕ, ◌+◌, String, Bool, true, false, not, Option, none, some, List, [], ◌∷◌, ◌++◌, ◌==◌, ◌&&◌,
  nat_eq, keep_if, if◌then◌else◌,
}
use pihub_remote_nrf.Prelude.Dict
use pihub_remote_nrf.Prelude.Dict.{Dict}
use pihub_remote_nrf.Prelude.Json.{Fields}
use pihub_remote_nrf.Ble.Frames.{CompiledBleFrames, compile_ble_frames}
use pihub_remote_nrf.Ble.Queue.{put_if_room}
use pihub_remote_nrf.Ble.Link.{Link, release_all}

abbrev pub Bindings : Type 0
Bindings = Dict (List Fields)

-- A delayed flow of _hold_tasks, under its key (rem_key, action_index).
pub record Hold : Type 0 where
  pub rem_key : String
  pub action_index : ℕ
  pub min_hold_ms : ℕ
  pub due : ℕ
  pub name : String
  pub trigger : String

-- A speaker action that waits in its domain's queue.
pub record Job : Type 0 where
  pub action : Fields
  pub rem_key : String

-- A call of run_flow.
pub record FlowCall : Type 0 where
  pub name : String
  pub trigger : String

pub record Dispatcher : Type 0 where
  pub bindings : Dict Bindings
  pub frames_by_mode : Dict CompiledBleFrames
  -- `self._run_flow is not None`
  pub can_run_flow : Bool
  pub mode : Option String
  pub active_bindings : Bindings
  pub active_frames : Option CompiledBleFrames
  pub pressed_at : Dict ℕ
  -- The keys that repeat, each with the time of its next round.
  pub repeat_tasks : Dict ℕ
  pub hold_tasks : List Hold
  pub speaker_queue : List Job
  pub ble : Link
  -- The flows started so far, in order.
  pub flows : List FlowCall

abbrev pub repeat_initial_ms : ℕ
repeat_initial_ms = 400

abbrev pub repeat_rate_ms : ℕ
repeat_rate_ms = 300

abbrev pub domain_queue_max : ℕ
domain_queue_max = 4

-- _compile_ble_frames_once. (compile_ble_frames raises nothing on a validated keymap.)
unfoldable pub compile_modes : Link → Dict Bindings → Dict CompiledBleFrames
compile_modes ble [] = []
compile_modes ble ((mode, mapping) ∷ rest) =
    (mode, compile_ble_frames ble.hid mapping) ∷ compile_modes ble rest

-- __init__, with the validated bindings.
unfoldable pub new_dispatcher : Dict Bindings → Link → Bool → Dispatcher
unfolding compile_modes
new_dispatcher bindings ble can_run_flow = record {
  bindings = bindings;
  frames_by_mode = compile_modes ble bindings;
  can_run_flow = can_run_flow;
  mode = none;
  active_bindings = [];
  active_frames = none;
  pressed_at = [];
  repeat_tasks = [];
  hold_tasks = [];
  speaker_queue = [];
  ble = ble;
  flows = [];
}

unfoldable pub bindings_of : Option String → Dict Bindings → Bindings
bindings_of none bindings = []
bindings_of (some mode) bindings = elim (Dict.get mode bindings) [ none ↦ [] | some b ↦ b ]

unfoldable pub frames_of : Option String → Dict CompiledBleFrames → Option CompiledBleFrames
frames_of none frames = none
frames_of (some mode) frames = Dict.get mode frames

unfoldable pub set_mode_bindings : Option String → Dispatcher → Dispatcher
unfolding bindings_of frames_of
set_mode_bindings mode d = record d {
  mode = mode;
  active_bindings = bindings_of mode d.bindings;
  active_frames = frames_of mode d.frames_by_mode;
}

-- self._active_bindings.get(rem_key, [])
unfoldable pub actions_for : String → Dispatcher → List Fields
actions_for rem_key d = elim (Dict.get rem_key d.active_bindings) [
  | none ↦ []
  | some actions ↦ actions
]

-- _submit("speaker", job): a full queue drops the new job.
unfoldable pub submit : Job → Dispatcher → Dispatcher
submit job d = record d { speaker_queue = put_if_room domain_queue_max job d.speaker_queue }

-- `await queue.get()` of _domain_worker.
unfoldable pub take_job : Dispatcher → Option (Job × Dispatcher)
take_job d = elim d.speaker_queue [
  | [] ↦ none
  | job ∷ rest ↦ some (job, record d { speaker_queue = rest })
]

-- _start_repeat
unfoldable pub start_repeat : String → ℕ → Dispatcher → Dispatcher
start_repeat rem_key now d =
    if Dict.has rem_key d.repeat_tasks
    then d
    else record d { repeat_tasks = Dict.put rem_key (now + repeat_initial_ms) d.repeat_tasks }

-- _stop_repeat
unfoldable pub stop_repeat : String → Dispatcher → Dispatcher
stop_repeat rem_key d = record d { repeat_tasks = Dict.remove rem_key d.repeat_tasks }

-- `key in self._hold_tasks`
unfoldable pub has_hold : String → ℕ → List Hold → Bool
has_hold rem_key action_index [] = false
has_hold rem_key action_index (h ∷ hs) =
    if h.rem_key == rem_key && nat_eq h.action_index action_index
    then true
    else has_hold rem_key action_index hs

-- _schedule_hold_action
unfoldable pub schedule_hold_action : Hold → Dispatcher → Dispatcher
unfolding has_hold
schedule_hold_action h d =
    if has_hold h.rem_key h.action_index d.hold_tasks
    then d
    else record d { hold_tasks = d.hold_tasks ++ h ∷ [] }

-- _cancel_hold_tasks
unfoldable pub cancel_hold_tasks : String → Dispatcher → Dispatcher
cancel_hold_tasks rem_key d = record d {
  hold_tasks = keep_if (λ h. not (h.rem_key == rem_key)) d.hold_tasks;
}

-- _cancel_all_repeat_tasks and _cancel_all_hold_tasks
unfoldable pub cancel_all : Dispatcher → Dispatcher
cancel_all d = record d { repeat_tasks = []; hold_tasks = [] }

unfoldable pub stop : Dispatcher → Dispatcher
unfolding cancel_all
stop d = record (cancel_all d) { speaker_queue = [] }

unfoldable pub on_usb_disconnect : Dispatcher → Dispatcher
unfolding cancel_all
on_usb_disconnect d = record (cancel_all d) { pressed_at = []; ble = release_all d.ble }
