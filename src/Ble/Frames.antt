-- ===== src/Ble/Frames.antt =====
-- pihub/ble_dongle.py, the encoding of HID reports and the frames compiled for a mode's bindings.
-- A byte is a number below 256, and `bytes` is a list of them.
use pihub_remote_nrf.Prelude.{
  ℕ, ◌%◌, ◌/◌, String, Bool, false, Option, none, some, List, [], ◌∷◌, ◌==◌, ◌&&◌, ◌||◌, nat_eq,
  length, if◌then◌else◌,
}
use pihub_remote_nrf.Prelude.Dict
use pihub_remote_nrf.Prelude.Dict.{Dict}
use pihub_remote_nrf.Prelude.Int.{ℤ, pos, negsuc, within, low_word}
use pihub_remote_nrf.Prelude.Json.{Fields, get_field, text_of}

abbrev pub Bytes : Type 0
Bytes = List ℕ

pub record CompiledBleFrames : Type 0 where
  pub kb_down : Dict Bytes
  pub kb_up : Dict Bytes
  pub cc_down : Dict Bytes
  pub cc_up : Dict Bytes

-- The HID usages of hid_keymap.json: _hid_kb and _hid_cc.
pub record HidKeymap : Type 0 where
  pub kb : Dict ℤ
  pub cc : Dict ℤ

abbrev pub kb_zeros : Bytes
kb_zeros = 1 ∷ 0 ∷ 0 ∷ 0 ∷ 0 ∷ 0 ∷ 0 ∷ 0 ∷ 0 ∷ []

abbrev pub cc_zeros : Bytes
cc_zeros = 2 ∷ 0 ∷ 0 ∷ []

usage_byte : ℤ → ℕ
usage_byte (pos n) = n
usage_byte (negsuc n) = 0

unfoldable pub kb_report8 : HidKeymap → String → Option Bytes
unfolding within usage_byte
kb_report8 hid code = elim (Dict.get code hid.kb) [
  | none ↦ none
  | some usage ↦
      if within 0 255 usage then some (0 ∷ 0 ∷ usage_byte usage ∷ 0 ∷ 0 ∷ 0 ∷ 0 ∷ 0 ∷ []) else none
]

unfoldable pub cc_report2 : HidKeymap → String → Option Bytes
cc_report2 hid code = elim (Dict.get code hid.cc) [
  | none ↦ none
  | some usage ↦ let u = low_word usage in some (u % 256 ∷ u / 256 ∷ [])
]

abbrev prefixed : ℕ → Option Bytes → Option Bytes
prefixed tag none = none
prefixed tag (some report) = some (tag ∷ report)

unfoldable pub encode_keyboard_down : HidKeymap → String → Option Bytes
unfolding kb_report8
encode_keyboard_down hid code = prefixed 1 (kb_report8 hid code)

unfoldable pub encode_keyboard_up : HidKeymap → String → Option Bytes
encode_keyboard_up hid code = some kb_zeros

unfoldable pub encode_consumer_down : HidKeymap → String → Option Bytes
unfolding cc_report2
encode_consumer_down hid code = prefixed 2 (cc_report2 hid code)

unfoldable pub encode_consumer_up : HidKeymap → String → Option Bytes
encode_consumer_up hid code = some cc_zeros

-- A payload that is not empty is entered, `if d: frames[code] = d`.
abbrev pub enter : String → Option Bytes → Dict Bytes → Dict Bytes
enter code none d = d
enter code (some []) d = d
enter code (some (b ∷ bs)) d = Dict.put code (b ∷ bs) d

abbrev pub no_frames : CompiledBleFrames
no_frames = record { kb_down = []; kb_up = []; cc_down = []; cc_up = [] }

unfoldable pub compile_pair : HidKeymap → String → String → CompiledBleFrames → CompiledBleFrames
compile_pair hid usage code fs =
    if usage == "keyboard"
    then record fs {
      kb_down = enter code (encode_keyboard_down hid code) fs.kb_down;
      kb_up = enter code (encode_keyboard_up hid code) fs.kb_up;
    }
    else if usage == "consumer"
    then record fs {
      cc_down = enter code (encode_consumer_down hid code) fs.cc_down;
      cc_up = enter code (encode_consumer_up hid code) fs.cc_up;
    }
    else fs

abbrev pub compile_texts :
    HidKeymap → Option String → Option String → CompiledBleFrames → CompiledBleFrames
compile_texts hid (some usage) (some code) fs = compile_pair hid usage code fs
compile_texts hid _ _ fs = fs

abbrev pub is_ble : Option String → Bool
is_ble none = false
is_ble (some domain) = domain == "ble"

unfoldable pub compile_action : HidKeymap → Fields → CompiledBleFrames → CompiledBleFrames
unfolding compile_pair
compile_action hid a fs =
    if is_ble (text_of (get_field "domain" a))
    then compile_texts hid (text_of (get_field "usage" a)) (text_of (get_field "code" a)) fs
    else fs

unfoldable pub compile_actions : HidKeymap → List Fields → CompiledBleFrames → CompiledBleFrames
unfolding compile_action
compile_actions hid [] fs = fs
compile_actions hid (a ∷ rest) fs = compile_actions hid rest (compile_action hid a fs)

unfoldable pub compile_bindings :
    HidKeymap → Dict (List Fields) → CompiledBleFrames → CompiledBleFrames
unfolding compile_actions
compile_bindings hid [] fs = fs
compile_bindings hid ((rem_key, actions) ∷ rest) fs =
    compile_bindings hid rest (compile_actions hid actions fs)

unfoldable pub compile_ble_frames : HidKeymap → Dict (List Fields) → CompiledBleFrames
unfolding compile_bindings
compile_ble_frames hid bindings = compile_bindings hid bindings no_frames

-- _is_hid_frame
abbrev first_is : ℕ → Bytes → Bool
first_is tag [] = false
first_is tag (b ∷ bs) = nat_eq b tag

unfoldable pub is_hid_frame : Bytes → Bool
is_hid_frame payload =
    (nat_eq (length payload) 9 && first_is 1 payload)
    || (nat_eq (length payload) 3 && first_is 2 payload)
