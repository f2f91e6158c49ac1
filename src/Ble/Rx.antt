-- ===== src/Ble/Rx.antt =====
-- pihub/ble_dongle.py, _ingest_rx_bytes: bytes from the port put together into lines.
pub mod Lines
use pihub_remote_nrf.Prelude.{
  ℕ, ◌≡◌, Bool, true, false, List, [], ◌∷◌, ◌++◌, ltb, nat_eq, length, ◌||◌, if◌then◌else◌,
}
use pihub_remote_nrf.Prelude.Text.{of_codes, is_empty}
use pihub_remote_nrf.Ble.Frames.{Bytes}
use pihub_remote_nrf.Ble.Link.{Link}
use pihub_remote_nrf.Ble.Events.{handle_line}

abbrev pub rx_line_max : ℕ
rx_line_max = 512

-- line.rstrip("\r\n")
unfoldable pub rstrip_line_end : Bytes → Bytes
rstrip_line_end [] = []
rstrip_line_end (b ∷ bs) = elim (rstrip_line_end bs) [
  | [] ↦ if nat_eq b 10 || nat_eq b 13 then [] else b ∷ []
  | c ∷ cs ↦ b ∷ c ∷ cs
]

-- The bytes of a whole line, its line end included.
unfoldable pub take_line : Bytes → Link → Link
unfolding rstrip_line_end
take_line buf l =
    let line = of_codes (rstrip_line_end buf) in if is_empty line then l else handle_line line l

unfoldable pub ingest_byte : ℕ → Link → Link
unfolding take_line
ingest_byte b l =
    if nat_eq b 0
    then l
    else (let buf = l.rx_buf ++ b ∷ [] in
        if ltb rx_line_max (length buf)
        then record l { rx_buf = [] }
        else if nat_eq b 10
        then take_line buf (record l { rx_buf = [] })
        else record l { rx_buf = buf })

unfoldable pub ingest_rx_bytes : Bytes → Link → Link
unfolding ingest_byte
ingest_rx_bytes [] l = l
ingest_rx_bytes (b ∷ chunk) l = ingest_rx_bytes chunk (ingest_byte b l)
