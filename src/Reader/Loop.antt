-- ===== src/Reader/Loop.antt =====
-- pihub/unifying_reader.py, UnifyingReader: the edge queue and its worker, and the outer loop that
-- opens the device, loses it, and waits before it looks again. Delays are in milliseconds, without
-- their jitter; log lines are not modelled.
use Prim.Native.String.{◌++◌ as str_append}
use pihub_remote_nrf.Prelude.{
  ℕ, suc, ◌*◌, String, Bool, true, false, Option, none, some, List, [], ◌∷◌, ◌++◌, ltb,
  if◌then◌else◌,
}
use pihub_remote_nrf.Prelude.Dict.{Dict}
use pihub_remote_nrf.InitialStatus
use pihub_remote_nrf.InitialStatus.{InitialStatus, mark_received, mark_failed}
use pihub_remote_nrf.Ble.Queue.{put_nowait}
use pihub_remote_nrf.Reader.Filter.{InputEvent, Edge, Filter, fresh, on_event}

-- How the reading of an open device ends: ENODEV or EIO with its number's text, another I/O error, or
-- another exception.
pub data Loss : Type 0 where
  gone : String → Loss
  io_error : String → Loss
  reader_error : String → Loss

pub record Reader : Type 0 where
  pub queue_max : ℕ
  pub edge_queue : List Edge
  pub dropped_edges : ℕ
  pub receiver_present : Bool
  pub paired_remote : Bool
  pub input_open : Bool
  pub grabbed : Bool
  pub disconnect_notified : Bool
  pub last_error : Option String
  pub backoff : ℕ
  pub initial : InitialStatus
  pub filter : Filter
  -- Where _run is: in the wait of an except branch, after this loss.
  pub losing : Option Loss
  -- The calls of on_edge and of on_disconnect so far.
  pub delivered : List Edge
  pub disconnects : ℕ

-- __init__ and start
abbrev pub new_reader : ℕ → Reader
new_reader queue_max = record {
  queue_max = queue_max;
  edge_queue = [];
  dropped_edges = 0;
  receiver_present = false;
  paired_remote = false;
  input_open = false;
  grabbed = false;
  disconnect_notified = false;
  last_error = none;
  backoff = 1000;
  initial = InitialStatus.init;
  filter = fresh;
  losing = none;
  delivered = [];
  disconnects = 0;
}

-- backoff = min(backoff * 2, 10.0)
unfoldable pub longer : ℕ → ℕ
longer backoff = if ltb (backoff * 2) 10000 then backoff * 2 else 10000

-- _emit
unfoldable pub emit : Edge → Reader → Reader
unfolding put_nowait
emit edge r = elim (put_nowait r.queue_max edge r.edge_queue) [
  | none ↦ record r { dropped_edges = suc r.dropped_edges }
  | some q ↦ record r { edge_queue = q }
]

-- One event of the open device.
unfoldable pub input : (ℕ → Option String) → Dict String → InputEvent → Reader → Reader
unfolding on_event emit
input key_name map event r =
    let (f, edge) = on_event key_name map event r.filter in
    elim edge [ none ↦ record r { filter = f } | some e ↦ emit e (record r { filter = f }) ]

-- A round of _drain_edges; an error in on_edge is only logged.
unfoldable pub drain : Reader → Option Reader
drain r = elim r.edge_queue [
  | [] ↦ none
  | e ∷ rest ↦ some (record r { edge_queue = rest; delivered = r.delivered ++ e ∷ [] })
]

-- A round of the outer loop that finds no device.
unfoldable pub no_device : Bool → Reader → Reader
unfolding longer mark_failed
no_device receiver_present r = record r {
  receiver_present = receiver_present;
  paired_remote = false;
  input_open = false;
  last_error = some "no_input_device";
  initial = mark_failed r.initial;
  backoff = longer r.backoff;
}

-- A round whose open raises.
unfoldable pub open_failed : Bool → String → Reader → Reader
unfolding longer mark_failed
open_failed receiver_present exc r = record r {
  receiver_present = receiver_present;
  paired_remote = true;
  input_open = false;
  last_error = some (str_append "open_failed: " exc);
  initial = mark_failed r.initial;
  backoff = longer r.backoff;
}

unfoldable pub opened : Bool → Bool → Reader → Reader
unfolding mark_received
opened receiver_present grabbed r = record r {
  receiver_present = receiver_present;
  paired_remote = true;
  input_open = true;
  grabbed = grabbed;
  disconnect_notified = false;
  last_error = none;
  initial = mark_received r.initial;
  backoff = 1000;
  filter = fresh;
}

-- _notify_disconnect, with a callback
unfoldable pub notify_disconnect : Reader → Reader
notify_disconnect r =
    if r.disconnect_notified
    then r
    else record r { disconnect_notified = true; disconnects = suc r.disconnects }

-- The except branch up to its wait.
unfoldable pub lose : Loss → Reader → Reader
unfolding notify_disconnect
lose (gone errno) r =
    record (notify_disconnect
      (record r { last_error = some (str_append "device_disconnected errno=" errno) })) {
        losing = some (gone errno);
      }
lose (io_error exc) r = record r {
  last_error = some (str_append "io_error: " exc);
  losing = some (io_error exc);
}
lose (reader_error exc) r = record r {
  last_error = some (str_append "reader_error: " exc);
  losing = some (reader_error exc);
}

-- disconnect_seen
abbrev pub is_gone : Loss → Bool
is_gone (gone _) = true
is_gone _ = false

-- The rest of the except branch, after its wait, and the finally.
unfoldable pub closed : Loss → Reader → Reader
unfolding longer notify_disconnect
closed why r =
    let r' = record r { input_open = false; losing = none } in
    if is_gone why then record r' { backoff = longer r.backoff } else notify_disconnect r'
