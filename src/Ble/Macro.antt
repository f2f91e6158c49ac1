-- ===== src/Ble/Macro.antt =====
-- pihub/ble_dongle.py: key macros (run_macro, send_key_strict and the Apple TV's). What the loop does
-- to the link while a macro sleeps is the argument `meanwhile`: the link after that many
-- milliseconds.
use pihub_remote_nrf.Prelude.{ℕ, String, Option, none, some, List, [], ◌∷◌}
use pihub_remote_nrf.Ble.Link.{Link, sent, not_sent, SendError, key_down_strict, key_up_strict}

-- A step of a macro: a key press held for a while, or a pause.
pub data MacroStep : Type 0 where
  press : String → String → ℕ → MacroStep
  wait_ms : ℕ → MacroStep

-- The macro's end: the link, and why it stopped early.
pub record Outcome : Type 0 where
  pub link : Link
  pub error : Option SendError

module _ (meanwhile : ℕ → Link → Link) where
  release_key : String → String → Link → Outcome
  release_key usage code l = elim (key_up_strict usage code l) [
    | not_sent e ↦ record { link = l; error = some e }
    | sent l' ↦ record { link = l'; error = none }
  ]

  unfoldable pub send_key_strict : String → String → ℕ → Link → Outcome
  unfolding release_key
  send_key_strict usage code hold l = elim (key_down_strict usage code l) [
    | not_sent e ↦ record { link = l; error = some e }
    | sent l' ↦ release_key usage code (meanwhile hold l')
  ]

  -- Go on from what a press left, unless it raised.
  abbrev and_then : Outcome → (Link → Outcome) → Outcome
  and_then o k = elim o.error [ none ↦ k o.link | some e ↦ o ]

  unfoldable pub run_macro : ℕ → List MacroStep → Link → Outcome
  unfolding send_key_strict
  run_macro inter_delay [] l = record { link = l; error = none }
  run_macro inter_delay (wait_ms n ∷ rest) l = run_macro inter_delay rest (meanwhile n l)
  run_macro inter_delay (press usage code hold ∷ []) l = send_key_strict usage code hold l
  run_macro inter_delay (press usage code hold ∷ step ∷ rest) l =
      and_then (send_key_strict usage code hold l)
        (λ l'. run_macro inter_delay (step ∷ rest) (meanwhile inter_delay l'))

abbrev key : String → MacroStep
key code = press "consumer" code 40

unfoldable pub power_on_steps : List MacroStep
power_on_steps = key "menu" ∷ wait_ms 1000 ∷ key "menu" ∷ []

unfoldable pub power_off_steps : List MacroStep
power_off_steps =
    key "ac_home"
    ∷ key "ac_home"
    ∷ key "ac_home"
    ∷ key "menu"
    ∷ key "menu"
    ∷ press "consumer" "power" 2000
    ∷ []

unfoldable pub return_home_steps : List MacroStep
return_home_steps = key "ac_home" ∷ key "ac_home" ∷ key "ac_home" ∷ key "menu" ∷ key "menu" ∷ []
