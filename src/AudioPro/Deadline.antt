-- ===== src/AudioPro/Deadline.antt =====
-- pihub/audiopro_speaker.py: how long a request for the full status can be put off.
use pihub_remote_nrf.Prelude.{ℕ, ◌+◌, ◌≤◌, Bool, true, Option, some, leb}
use pihub_remote_nrf.AudioPro.Asking.{pinfget_max_wait, Task, waiting, Asking, Event, hint}

-- Every delay that the program asks for is within pinfget_max_wait.
abbrev pub is_prompt : Event → Bool
is_prompt (hint delay) = leb delay pinfget_max_wait
is_prompt _ = true

abbrev Bounded : ℕ → ℕ → ℕ → Option Task → Type 0
Bounded due first now (some waiting) = (due ≤ first + pinfget_max_wait) × (first ≤ now)
Bounded due first now _ = Unit

record InTime (s : Asking) : Type 0 where
  bounded : Bounded s.due s.first_hint s.now s.pending_task
  past : s.last_pinfget ≤ s.now
