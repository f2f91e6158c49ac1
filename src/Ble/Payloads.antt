-- ===== src/Ble/Payloads.antt =====
-- What the encoder of pihub/ble_dongle.py puts on the wire.
use pihub_remote_nrf.Prelude.{
  ℕ, ◌+◌, ◌*◌, ◌<◌, String, ◌≡◌, true, some, [], ◌∷◌, arith, All, Option-cases, inl, inr, ◌/◌, ◌%◌,
}
use pihub_remote_nrf.Prelude.Dict
use pihub_remote_nrf.Prelude.Int.{ℤ, pos, negsuc, low_word, low_word-lt}
use pihub_remote_nrf.Ble.Frames.{
  Bytes, HidKeymap, is_hid_frame, encode_keyboard_down, encode_consumer_down,
}

-- A payload is a HID frame of bytes.
pub record IsPayload (p : Bytes) : Type 0 where
  pub framed : is_hid_frame p ≡ true
  pub in_range : All (λ b. b < 256) p

keyboard-IsPayload :
    (hid : HidKeymap) (code : String) (p : Bytes)
    → encode_keyboard_down hid code ≡ some p
    → IsPayload p
unfolding encode_keyboard_down is_hid_frame
keyboard-IsPayload hid code p h = elim (Option-cases (Dict.get code hid.kb)) [
  | inl e ↦ absurd (ground arith)
  | inr (pos n, e) ↦ ground arith
  | inr (negsuc n, e) ↦ absurd (ground arith)
]

consumer-IsPayload :
    (hid : HidKeymap) (code : String) (p : Bytes)
    → encode_consumer_down hid code ≡ some p
    → IsPayload p
unfolding encode_consumer_down is_hid_frame
consumer-IsPayload hid code p h = elim (Option-cases (Dict.get code hid.cc)) [
  | inl e ↦ absurd (ground arith)
  | inr (u, e) ↦ ground (arith, low_word-lt u)
]

-- The two bytes of a consumer report are the usage's low sixteen bits, the low byte first.
pub consumer_little_endian :
    (hid : HidKeymap) (code : String) (usage : ℤ)
    → Dict.get code hid.cc ≡ some usage
    → (lo hi : ℕ) × (encode_consumer_down hid code ≡ some (2 ∷ lo ∷ hi ∷ []))
      × (lo < 256)
      × (hi < 256)
      × (lo + 256 * hi ≡ low_word usage)
unfolding encode_consumer_down
consumer_little_endian hid code usage h = (
  low_word usage % 256,
  low_word usage / 256,
  ground arith,
  omega arith,
  omega (arith, low_word-lt usage),
  omega arith,
)
