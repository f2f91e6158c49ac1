-- ===== src/Airplay/State.antt =====
-- pihub/apple_tv_airplay.py, AppleTvAirPlay. Times are the event loop's, in milliseconds; what an
-- mDNS request answers is an argument. Wall-clock times and log lines are not modelled.
use pihub_remote_nrf.Prelude.{
  ℕ, ◌+◌, String, Bool, true, false, not, Option, none, some, List, [], ◌∷◌, ◌++◌, ◌==◌, ◌&&◌,
  if◌then◌else◌,
}
use pihub_remote_nrf.Prelude.Int.{ℤ}
use pihub_remote_nrf.InitialStatus
use pihub_remote_nrf.InitialStatus.{InitialStatus, mark_received, mark_failed}
use pihub_remote_nrf.Airplay.Flags.{extract_flags, has_session}

-- The task that waits out the debounce: when it was made, when it is due, and for which service.
pub record Pending : Type 0 where
  pub since : ℕ
  pub due : ℕ
  pub service_name : String

-- A watch signal: the payload of the callback.
pub record Signal : Type 0 where
  pub service_name : String
  pub flags : ℤ

pub record AppleTv : Type 0 where
  pub configured : Bool
  pub debounce_ms : ℕ
  pub ready : Bool
  pub reachable : Bool
  pub service_name : Option String
  pub flags : Option ℤ
  pub connected_session : Bool
  pub last_error : Option String
  pub has_callback : Bool
  -- `self._aiozc is not None`
  pub browsing : Bool
  pub pending : Option Pending
  pub initial : InitialStatus
  -- The callback's calls, in order.
  pub signals : List Signal

-- What a request for a service gives: no answer, or its addresses' match and its flags property.
pub record Info : Type 0 where
  pub answered : Bool
  pub matches_target_ip : Bool
  pub flags_property : Option String

-- __init__, by whether there is an address, with the callback's setter.
unfoldable pub new_apple_tv : Bool → ℕ → Bool → AppleTv
new_apple_tv configured debounce_ms has_callback = record {
  configured = configured;
  debounce_ms = debounce_ms;
  ready = false;
  reachable = false;
  service_name = none;
  flags = none;
  connected_session = false;
  last_error = none;
  has_callback = has_callback;
  browsing = false;
  pending = none;
  initial = InitialStatus.init;
  signals = [];
}

unfoldable pub start : AppleTv → AppleTv
unfolding mark_failed
start s =
    if s.configured
    then record s { browsing = true; ready = true }
    else record s { last_error = some "apple_tv_ip_missing"; initial = mark_failed s.initial }

unfoldable pub stop : AppleTv → AppleTv
stop s = record s { pending = none; browsing = false; ready = false }

-- _cancel_pending_watch_signal
abbrev pub cancel_pending_watch_signal : AppleTv → AppleTv
cancel_pending_watch_signal s = record s { pending = none }

-- _schedule_watch_signal
abbrev pub schedule_watch_signal : ℕ → String → AppleTv → AppleTv
schedule_watch_signal now name s = record s {
  pending = some (record { since = now; due = now + s.debounce_ms; service_name = name });
}

-- A reading's flags in the state, and whether it is the first reading of the start-up.
abbrev pub read_flags : String → ℤ → AppleTv → AppleTv
read_flags name flags s = record s {
  reachable = true;
  service_name = some name;
  flags = some flags;
  connected_session = has_session flags;
  last_error = none;
  initial = mark_received s.initial;
}

-- _resolve_service, once the request is answered.
unfoldable pub take_flags : ℕ → String → Option ℤ → AppleTv → AppleTv
unfolding has_session mark_received
take_flags now name none s = record s { last_error = some "airplay_flags_missing" }
take_flags now name (some flags) s =
    if not (has_session flags)
    then cancel_pending_watch_signal (read_flags name flags s)
    else if s.initial.settled
    then schedule_watch_signal now name (read_flags name flags s)
    else read_flags name flags s

-- _resolve_service
unfoldable pub resolve_service : ℕ → String → Info → AppleTv → AppleTv
unfolding take_flags extract_flags
resolve_service now name info s =
    if s.browsing && s.configured && info.answered && info.matches_target_ip
    then take_flags now name (extract_flags info.flags_property) s
    else s

abbrev pub is_service : String → Option String → Bool
is_service name none = false
is_service name (some service_name) = service_name == name

-- _handle_service_removed
unfoldable pub handle_service_removed : String → AppleTv → AppleTv
handle_service_removed name s =
    if is_service name s.service_name
    then cancel_pending_watch_signal (record s { reachable = false; connected_session = false })
    else s

-- _initial_deadline, after its sleep
unfoldable pub initial_deadline : AppleTv → AppleTv
unfolding mark_failed
initial_deadline s = record s { initial = mark_failed s.initial }

-- The callback's call, if the session is still there.
unfoldable pub emit_watch : String → Option ℤ → AppleTv → AppleTv
unfolding has_session
emit_watch name none s = s
emit_watch name (some flags) s =
    if has_session flags && s.connected_session && s.has_callback
    then record s { signals = s.signals ++ record { service_name = name; flags = flags } ∷ [] }
    else s

-- _emit_watch_after_debounce, after its sleep
unfoldable pub emit_watch_after_debounce : Pending → AppleTv → AppleTv
unfolding emit_watch
emit_watch_after_debounce p s = emit_watch p.service_name s.flags (record s { pending = none })
