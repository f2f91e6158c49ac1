-- ===== src/InitialStatus.antt =====
-- pihub/initial_status.py: a device's first reading after start-up. `settled` is the asyncio.Event;
-- the log lines are not modelled.
use pihub_remote_nrf.Prelude.{Bool, true, false, if◌then◌else◌}

pub record InitialStatus : Type 0 where
  pub settled : Bool
  pub received : Bool

abbrev pub init : InitialStatus
init = record { settled = false; received = false }

unfoldable pub mark_received : InitialStatus → InitialStatus
mark_received s = if s.received then s else record { settled = true; received = true }

unfoldable pub mark_failed : InitialStatus → InitialStatus
mark_failed s = if s.settled then s else record s { settled = true }

-- What `wait` returns, whether the event came or the time ran out.
unfoldable pub wait : InitialStatus → Bool
wait s = s.received
