-- ===== src/AudioPro/Asking.antt =====
-- pihub/audiopro_speaker.py: when the speaker is asked for its full status (_request_pinfget,
-- _clear_pending_pinfget, _run_scheduled_pinfget, _cancel_pending_pinfget). Times are the monotonic clock's,
-- in milliseconds; the scheduler's choices are events.
use pihub_remote_nrf.Prelude.{
  ℕ, ◌+◌, Bool, true, false, Option, none, some, List, [], ◌∷◌, ◌++◌, ◌&&◌, ltb, leb, is_some, not,
  if◌then◌else◌,
}

abbrev pub pinfget_min_gap : ℕ
pinfget_min_gap = 1000

abbrev pub pinfget_hint_delay : ℕ
pinfget_hint_delay = 1000

abbrev pub pinfget_max_wait : ℕ
pinfget_max_wait = 2000

abbrev pub ply_hint_delay : ℕ
ply_hint_delay = 300

-- A task of _run_scheduled_pinfget: it waits for its time, it sends, or it has ended (and whether it raised) and
-- its done callback is still to be called.
pub data Task : Type 0 where
  waiting sending : Task
  ended : Bool → Task

pub record Asking : Type 0 where
  -- `self._enabled and not self._stop_evt.is_set()`
  pub enabled : Bool
  pub now : ℕ
  pub pending_task : Option Task
  -- The ended tasks in whose place another came before their callback: whether they raised.
  pub replaced : List Bool
  pub due : ℕ
  pub first_hint : ℕ
  pub last_hint : ℕ
  pub last_pinfget : ℕ

abbrev pub new_asking : Asking
new_asking = record {
  enabled = false;
  now = 0;
  pending_task = none;
  replaced = [];
  due = 0;
  first_hint = 0;
  last_hint = 0;
  last_pinfget = 0;
}

abbrev pub max : ℕ → ℕ → ℕ
max a b = if ltb a b then b else a

abbrev pub min : ℕ → ℕ → ℕ
min a b = if ltb b a then b else a

-- `task is not None and not task.done()`
abbrev pub is_running : Option Task → Bool
is_running (some waiting) = true
is_running (some sending) = true
is_running _ = false

abbrev pub replace : Option Task → List Bool → List Bool
replace (some (ended raised)) bs = bs ++ raised ∷ []
replace _ bs = bs

abbrev pub push_back : ℕ → Asking → Asking
push_back delay s = record s {
  last_hint = s.now;
  due = min (max s.due (s.now + delay)) (s.first_hint + pinfget_max_wait);
}

abbrev pub schedule : ℕ → Asking → Asking
schedule delay s = record s {
  last_hint = s.now;
  first_hint = s.now;
  due = s.now + delay;
  pending_task = some waiting;
  replaced = replace s.pending_task s.replaced;
}

unfoldable pub request_pinfget : ℕ → Asking → Asking
request_pinfget delay s =
    if s.enabled
    then if is_running s.pending_task then push_back delay s else schedule delay s
    else s

-- What _clear_pending_pinfget does once the task's result is known.
unfoldable pub after_result : Bool → Asking → Asking
unfolding request_pinfget
after_result raised s =
    if raised
    then s
    else if ltb s.last_pinfget s.last_hint && not (is_some s.pending_task)
    then request_pinfget 0 s
    else s

-- The callback of the pending task, where that has ended.
unfoldable pub clear_pending_pinfget : Asking → Asking
unfolding after_result
clear_pending_pinfget s = elim s.pending_task [
  | some (ended raised) ↦ after_result raised (record s { pending_task = none })
  | _ ↦ s
]

-- The callback of a task that is the pending one no more.
unfoldable pub clear_replaced : Asking → Asking
unfolding after_result
clear_replaced s = elim s.replaced [
  | [] ↦ s
  | raised ∷ bs ↦ after_result raised (record s { replaced = bs })
]

abbrev pub ask : Asking → Asking
ask s = record s { last_pinfget = s.now; pending_task = some sending }

-- What the waiting task does when it looks at the clock: a round of _run_scheduled_pinfget's loop and, where that
-- breaks, what stands before the send.
unfoldable pub look : Asking → Asking
look s = elim s.pending_task [
  | some waiting ↦
      if leb (max s.due (s.last_pinfget + pinfget_min_gap)) s.now
      then if s.enabled then ask s else record s { pending_task = some (ended false) }
      else s
  | _ ↦ s
]

-- The send of `await self._pinfget()` is over, and has raised or not.
unfoldable pub sent : Bool → Asking → Asking
sent raised s = elim s.pending_task [
  | some sending ↦ record s { pending_task = some (ended raised) }
  | _ ↦ s
]

-- _cancel_pending_pinfget; of a cancelled task the callback does nothing.
unfoldable pub cancel_pending_pinfget : Asking → Asking
cancel_pending_pinfget s = record s {
  pending_task = none;
  replaced = replace s.pending_task s.replaced;
}

pub data Event : Type 0 where
  hint : ℕ → Event
  time_passes : ℕ → Event
  looks : Event
  send_ends : Bool → Event
  calls_back calls_back_replaced : Event
  -- request_refresh has asked by itself.
  refreshed : Event
  cancels starts stops : Event

unfoldable pub step : Event → Asking → Asking
unfolding request_pinfget look sent clear_pending_pinfget clear_replaced cancel_pending_pinfget
step (hint delay) s = request_pinfget delay s
step (time_passes d) s = record s { now = s.now + d }
step looks s = look s
step (send_ends raised) s = sent raised s
step calls_back s = clear_pending_pinfget s
step calls_back_replaced s = clear_replaced s
step refreshed s = record s { last_pinfget = s.now }
step cancels s = cancel_pending_pinfget s
step starts s = record s { enabled = true }
step stops s = cancel_pending_pinfget (record s { enabled = false })

unfoldable pub run : List Event → Asking → Asking
unfolding step
run [] s = s
run (e ∷ es) s = run es (step e s)
