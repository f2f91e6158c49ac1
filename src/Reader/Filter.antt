-- ===== src/Reader/Filter.antt =====
-- pihub/unifying_reader.py: from an input device's events to key edges (the inner loop of _run,
-- _resolve_logical_key). The names of key codes are evdev's: the parameter `key_name`.
use Prim.Native.String.{◌++◌ as str_append, char_at}
use pihub_remote_nrf.Prelude.{
  ℕ, zero, suc, ◌/◌, ◌%◌, String, Bool, true, false, not, Option, none, some, List, [], ◌∷◌, ◌==◌,
  ◌&&◌, ◌||◌, ltb, nat_eq, keep_if, if◌then◌else◌,
}
use pihub_remote_nrf.Prelude.Text.{is_empty}
use pihub_remote_nrf.Prelude.Int.{ℤ, pos, negsuc}
use pihub_remote_nrf.Prelude.Dict
use pihub_remote_nrf.Prelude.Dict.{Dict}

-- Digits with fuel; a number has at most as many digits as one more than itself.
digits_of : ℕ → ℕ → String
digits_of zero n = ""
digits_of (suc fuel) n =
    let front = digits_of fuel (n / 10) in
    let last = String.◌∷◌ (char_at "0123456789" (n % 10)) String.[] in
    if ltb n 10 then last else str_append front last

-- str(z)
unfoldable pub int_text : ℤ → String
unfolding digits_of
int_text (pos n) = digits_of (suc n) n
int_text (negsuc n) = str_append "-" (digits_of (suc (suc n)) (suc n))

-- An input event: the scan code that comes before a key, a key with its code and value, or another.
pub data InputEvent : Type 0 where
  msc_scan : ℤ → InputEvent
  key : ℕ → ℕ → InputEvent
  other_event : InputEvent

-- A logical key's edge, with the code of the key that made it.
pub record Edge : Type 0 where
  pub rem_key : String
  pub code : ℕ
  pub is_down : Bool

pub record Filter : Type 0 where
  pub last_msc_scan : Option ℤ
  pub pressed : List (String × ℕ)

abbrev pub fresh : Filter
fresh = record { last_msc_scan = none; pressed = [] }

unfoldable pub same_key : String → ℕ → String × ℕ → Bool
same_key rem_key code (k, c) = k == rem_key && nat_eq c code

-- key_id in pressed
unfoldable pub is_pressed : String → ℕ → List (String × ℕ) → Bool
unfolding same_key
is_pressed rem_key code [] = false
is_pressed rem_key code (id ∷ ids) = same_key rem_key code id || is_pressed rem_key code ids

-- pressed.discard(key_id)
unfoldable pub discard : String → ℕ → List (String × ℕ) → List (String × ℕ)
unfolding same_key
discard rem_key code ids = keep_if (λ id. not (same_key rem_key code id)) ids

-- What a test of Python's takes from a lookup: an empty text counts as none.
abbrev filled : Option String → Option String
filled none = none
filled (some s) = if is_empty s then none else some s

abbrev or_else : Option String → Option String → Option String
or_else (some s) b = some s
or_else none b = b

module _ (key_name : ℕ → Option String) (map : Dict String) where
  lookup : Option String → Option String
  unfolding is_empty Dict.get
  lookup none = none
  lookup (some name) = if is_empty name then none else filled (Dict.get name map)

  scanned : Option ℤ → Option String
  unfolding is_empty Dict.get int_text
  scanned none = none
  scanned (some scan) = filled (Dict.get (int_text scan) map)

  -- _resolve_logical_key
  unfoldable pub resolve_logical_key : ℕ → Option ℤ → Option String
  unfolding lookup scanned
  resolve_logical_key code scan = or_else (scanned scan) (lookup (key_name code))

  -- A key event of this logical key.
  unfoldable pub logical_event : String → ℕ → ℕ → Filter → Filter × Option Edge
  unfolding is_pressed discard
  logical_event rem_key code value f =
      if nat_eq value 2
      then (f, none)
      else if nat_eq value 1
      then if is_pressed rem_key code f.pressed then (f, none) else (
        record f { pressed = (rem_key, code) ∷ f.pressed },
        some (record { rem_key = rem_key; code = code; is_down = true }),
      )
      else (
        record f { pressed = discard rem_key code f.pressed },
        some (record { rem_key = rem_key; code = code; is_down = false }),
      )

  -- One round of the inner loop.
  unfoldable pub on_event : InputEvent → Filter → Filter × Option Edge
  unfolding resolve_logical_key logical_event
  on_event (msc_scan scan) f = (record f { last_msc_scan = some scan }, none)
  on_event other_event f = (f, none)
  on_event (key code value) f =
      let f' = record f { last_msc_scan = none } in
      elim (resolve_logical_key code f.last_msc_scan) [
        | none ↦ (f', none)
        | some rem_key ↦ logical_event rem_key code value f'
      ]
