-- ===== src/Validation.antt =====
-- pihub/validation.py: parse_ms. The log lines are not modelled.
use pihub_remote_nrf.Prelude.{ℕ, Option, none, some, if◌then◌else◌}
use pihub_remote_nrf.Prelude.Int.{ℤ, within}
use pihub_remote_nrf.Prelude.Json.{
  Value, null, to_int, IntResult, ok, err, type_error, value_error, overflow_error,
}

-- What parse_ms returns; `raised` is the OverflowError of int(), which it does not catch.
pub data Ms : Type 0 where
  given : ℤ → Ms
  default : Ms
  raised : Ms

abbrev bounded : ℕ → ℕ → IntResult → Ms
bounded min max (ok parsed) = if within min max parsed then given parsed else default
bounded min max (err overflow_error) = raised
bounded min max (err type_error) = default
bounded min max (err value_error) = default

-- A missing key is None.
unfoldable pub parse_ms : ℕ → ℕ → Option Value → Ms
unfolding to_int
parse_ms min max none = default
parse_ms min max (some null) = default
parse_ms min max (some v) = bounded min max (to_int v)
