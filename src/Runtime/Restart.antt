-- ===== src/Runtime/Restart.antt =====
-- pihub/runtime.py: a restart on the file that _remember wrote.
use pihub_remote_nrf.Prelude.{
  String, ◌≡◌, refl, inl, inr, Bool, Option, none, some, arith, if◌then◌else◌,
}
use pihub_remote_nrf.Prelude.Text.{is_empty}
use pihub_remote_nrf.Prelude.Json.{Value, get_field, truthy, text_value, text_or}
use pihub_remote_nrf.Dispatcher.State.{Dispatcher}
use pihub_remote_nrf.Runtime.State.{Engine, Remembered, new_engine, valid_modes, file_of}
use pihub_remote_nrf.Runtime.Modes.{start, start_with, checked, load_remembered, load_fields}
use pihub_remote_nrf.Runtime.Invariant.{IsValid}

-- The last flow that a restart restores: the mode stands in for one that is missing or empty.
abbrev pub restored : String → Option String → String
restored first none = first
restored first (some f) = if is_empty f then first else f

load-file_of :
    (str_of : Value → String) (first : String) (last_flow : Option String)
    → load_remembered str_of (file_of (some (record { mode = first; last_flow = last_flow })))
      ≡ (first, some (restored first last_flow))
unfolding load_remembered load_fields file_of text_or text_value get_field truthy
load-file_of str_of first none = refl
load-file_of str_of first (some f) = ground arith

-- A restart with a keymap of the same modes, on the file that a valid engine saved, brings back that
-- engine's mode, with the last flow (or the mode where there was none).
pub restart_restores :
    (str_of : Value → String) (e : Engine) (r : Remembered) (d : Option Dispatcher)
    (soundbar : Bool)
    → IsValid e
    → e.saved ≡ some r
    → valid_modes d ≡ valid_modes e.dispatcher
    → ((start str_of (file_of e.saved) (new_engine d soundbar)).mode ≡ e.mode)
      × ((start str_of (file_of e.saved) (new_engine d soundbar)).last_flow
          ≡ some (restored e.mode e.last_flow))
unfolding start start_with checked new_engine
restart_restores str_of e r d soundbar v saved same = elim v.kept [
  | inl nothing ↦ absurd (ground arith)
  | inr kept ↦
      rw kept (rw (load-file_of str_of e.mode e.last_flow) (rw same (rw v.known_mode (refl, refl))))
]
