-- ===== src/Dispatcher/Reach.antt =====
-- Every schedule of pihub/dispatcher.py: key edges, holds and repeats at or after their time, the
-- speaker's worker, mode changes, a lost receiver and a stop, at times that never go back.
use pihub_remote_nrf.Prelude.{ℕ, ◌≤◌, String, ◌≡◌, Bool, Option, some, arith}
use pihub_remote_nrf.Prelude.Dict
use pihub_remote_nrf.Prelude.Dict.{Dict}
use pihub_remote_nrf.Ble.Link.{Link}
use pihub_remote_nrf.Dispatcher.State.{
  Bindings, Dispatcher, Hold, Job, new_dispatcher, take_job, set_mode_bindings, stop,
  on_usb_disconnect,
}
use pihub_remote_nrf.Dispatcher.Edges.{on_usb_edge, repeat_round, hold_fires}
use pihub_remote_nrf.Dispatcher.Timing.{IsTimed}

-- The dispatcher at a time of the event loop's clock.
pub record At : Type 0 where
  pub now : ℕ
  pub dispatcher : Dispatcher

pub data Step : At → At → Type 0 where
  edge :
      (key e : String) (now' : ℕ) (s : At)
      → s.now ≤ now'
      → Step s (record { now = now'; dispatcher = (on_usb_edge key e now' s.dispatcher).state })
  hold :
      (h : Hold) (now' : ℕ) (s : At)
      → s.now ≤ now'
      → h.due ≤ now'
      → Step s (record { now = now'; dispatcher = hold_fires h s.dispatcher })
  repeat :
      (key : String) (due now' : ℕ) (s : At)
      → s.now ≤ now'
      → Dict.get key s.dispatcher.repeat_tasks ≡ some due
      → due ≤ now'
      → Step s (record { now = now'; dispatcher = repeat_round key now' s.dispatcher })
  worker :
      (job : Job) (d' : Dispatcher) (s : At)
      → take_job s.dispatcher ≡ some (job, d')
      → Step s (record { now = s.now; dispatcher = d' })
  mode :
      (m : Option String) (s : At)
      → Step s (record { now = s.now; dispatcher = set_mode_bindings m s.dispatcher })
  link :
      (l : Link) (s : At)
      → Step s (record { now = s.now; dispatcher = record s.dispatcher { ble = l } })
  disconnect :
      (s : At) → Step s (record { now = s.now; dispatcher = on_usb_disconnect s.dispatcher })
  stopped : (s : At) → Step s (record { now = s.now; dispatcher = stop s.dispatcher })

pub data Reach (s : At) : At → Type 0 where
  here : Reach s s
  next : {t u : At} → Reach s t → Step t u → Reach s u

pub new-IsTimed :
    (bindings : Dict Bindings) (ble : Link) (can_run_flow : Bool) (now : ℕ)
    → IsTimed now (new_dispatcher bindings ble can_run_flow)
unfolding new_dispatcher Dict.get Dict.has
new-IsTimed bindings ble can_run_flow now = record {
  past = λ k t g. ground arith;
  held = tt;
  repeating = λ k h. ground arith;
}
