-- ===== src/Airplay/Signals.antt =====
-- pihub/apple_tv_airplay.py: when a watch signal is sent, over every order of readings, removals,
-- deadlines and stops, at times that never go back.
use pihub_remote_nrf.Prelude.{
  ℕ, ◌+◌, ◌≤◌, String, ◌≡◌, Bool, true, Option, none, some, if◌then◌else◌,
}
use pihub_remote_nrf.Prelude.Int.{ℤ}
use pihub_remote_nrf.InitialStatus.{InitialStatus}
use pihub_remote_nrf.Airplay.Flags.{has_session}
use pihub_remote_nrf.Airplay.State.{
  AppleTv, Pending, Info, new_apple_tv, start, stop, resolve_service, handle_service_removed,
  initial_deadline, emit_watch_after_debounce,
}

-- The state at a time, and the last time at which no session was connected.
pub record At : Type 0 where
  pub now : ℕ
  pub tv : AppleTv
  pub last_idle : ℕ

-- The state after a step at this time.
abbrev pub at : ℕ → AppleTv → At → At
at now tv s = record {
  now = now;
  tv = tv;
  last_idle = if tv.connected_session then s.last_idle else now;
}

pub data Step : At → At → Type 0 where
  reading :
      (name : String) (info : Info) (now : ℕ) (s : At)
      → s.now ≤ now
      → Step s (at now (resolve_service now name info s.tv) s)
  removed :
      (name : String) (now : ℕ) (s : At)
      → s.now ≤ now
      → Step s (at now (handle_service_removed name s.tv) s)
  deadline : (now : ℕ) (s : At) → s.now ≤ now → Step s (at now (initial_deadline s.tv) s)
  stopped : (now : ℕ) (s : At) → s.now ≤ now → Step s (at now (stop s.tv) s)
  fires :
      (p : Pending) (now : ℕ) (s : At)
      → s.now ≤ now
      → s.tv.pending ≡ some p
      → p.due ≤ now
      → Step s (at now (emit_watch_after_debounce p s.tv) s)

pub data Reach (s : At) : At → Type 0 where
  here : Reach s s
  next : {t u : At} → Reach s t → Step t u → Reach s u

-- The flags of the last reading show a session.
abbrev Shows : Option ℤ → Type 0
Shows none = ⊥
Shows (some flags) = has_session flags ≡ true

-- A pending signal was made by a reading that showed a session, after the start-up's first reading, and no
-- reading or removal has ended the session since.
abbrev IsHeld : AppleTv → ℕ → Option Pending → Type 0
IsHeld tv last_idle none = Unit
IsHeld tv last_idle (some p) =
    (tv.connected_session ≡ true)
    × Shows tv.flags
    × (last_idle ≤ p.since)
    × (p.due ≡ p.since + tv.debounce_ms)
    × (tv.initial.settled ≡ true)

abbrev pub IsTimely : At → Type 0
IsTimely s = (s.last_idle ≤ s.now) × IsHeld s.tv s.last_idle s.tv.pending

-- The state when start has run at this time.
abbrev pub started : Bool → ℕ → Bool → ℕ → At
started configured debounce_ms has_callback now = record {
  now = now;
  tv = start (new_apple_tv configured debounce_ms has_callback);
  last_idle = now;
}
