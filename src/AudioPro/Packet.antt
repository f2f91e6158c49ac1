-- ===== src/AudioPro/Packet.antt =====
-- pihub/audiopro_speaker.py: the packets of the TCP link (_mk_packet) and how they are taken out of the
-- bytes that arrive (_read_loop). A payload is its bytes; a checksum that does not match is only logged.
use pihub_remote_nrf.Prelude.{
  ℕ, zero, suc, ◌+◌, ◌-◌, ◌*◌, ◌/◌, ◌%◌, Bool, false, Option, none, some, List, [], ◌∷◌, ◌++◌, ◌&&◌,
  ltb, nat_eq, length, take, drop, if◌then◌else◌,
}
use pihub_remote_nrf.Ble.Frames.{Bytes}

unfoldable pub sum : Bytes → ℕ
sum [] = 0
sum (b ∷ bs) = b + sum bs

-- struct.pack("<I", n)
abbrev pub pack : ℕ → Bytes
pack n = n % 256 ∷ n / 256 % 256 ∷ n / 65536 % 256 ∷ n / 16777216 % 256 ∷ []

-- _TCP_HEADER
abbrev pub tcp_header : Bytes
tcp_header = 24 ∷ 150 ∷ 24 ∷ 32 ∷ []

abbrev pub reserved : Bytes
reserved = 0 ∷ 0 ∷ 0 ∷ 0 ∷ 0 ∷ 0 ∷ 0 ∷ 0 ∷ []

-- _mk_packet, of a payload's bytes
unfoldable pub mk_packet : Bytes → Bytes
unfolding sum
mk_packet pb = tcp_header ++ (pack (length pb) ++ (pack (sum pb % 4294967296) ++ (reserved ++ pb)))

unfoldable pub at_header : Bytes → Bool
at_header (a ∷ b ∷ c ∷ d ∷ _) = nat_eq a 24 && nat_eq b 150 && nat_eq c 24 && nat_eq d 32
at_header _ = false

-- buf.find(_TCP_HEADER), as the buffer from there on.
unfoldable pub from_header : Bytes → Option Bytes
unfolding at_header
from_header [] = none
from_header (b ∷ bs) =
    let later = from_header bs in if at_header (b ∷ bs) then some (b ∷ bs) else later

-- struct.unpack_from("<I", buf, 4)[0]
unfoldable pub length_field : Bytes → ℕ
length_field (_ ∷ _ ∷ _ ∷ _ ∷ a ∷ b ∷ c ∷ d ∷ _) = a + 256 * b + 65536 * c + 16777216 * d
length_field _ = 0

-- A round of the inner loop: it breaks and leaves this buffer, or takes a payload and leaves this one.
pub data Round : Type 0 where
  breaks : Bytes → Round
  takes : Bytes → Bytes → Round

-- From a header with at least twenty bytes.
unfoldable pub take_packet : Bytes → Round
unfolding length_field
take_packet buf =
    let total = 20 + length_field buf in
    if ltb (length buf) total
    then breaks buf
    else takes (take (length_field buf) (drop 20 buf)) (drop total buf)

unfoldable pub round : Bytes → Round
unfolding from_header take_packet
round buf = if ltb (length buf) 20 then breaks buf else elim (from_header buf) [
  | none ↦ breaks (drop (length buf - 3) buf)
  | some buf' ↦ if ltb (length buf') 20 then breaks buf' else take_packet buf'
]

abbrev pub add_payload : Bytes → List Bytes × Bytes → List Bytes × Bytes
add_payload p (ps, buf) = (p ∷ ps, buf)

-- The inner loop, with fuel: the payloads taken, and the buffer left.
unfoldable pub take_packets : ℕ → Bytes → List Bytes × Bytes
unfolding round
take_packets zero buf = ([], buf)
take_packets (suc fuel) buf = elim (round buf) [
  | breaks rest ↦ ([], rest)
  | takes p rest ↦ add_payload p (take_packets fuel rest)
]

-- A chunk of _read_loop: each round takes a byte at least, so that the fuel is enough.
unfoldable pub read_chunk : Bytes → Bytes → List Bytes × Bytes
unfolding take_packets
read_chunk chunk buf = take_packets (suc (length (buf ++ chunk))) (buf ++ chunk)

abbrev pub add_payloads : List Bytes → List Bytes × Bytes → List Bytes × Bytes
add_payloads ps (qs, buf) = (ps ++ qs, buf)

-- _read_loop over the chunks that arrive, from a buffer.
unfoldable pub read_loop : List Bytes → Bytes → List Bytes × Bytes
unfolding read_chunk
read_loop [] buf = ([], buf)
read_loop (chunk ∷ chunks) buf =
    let taken = read_chunk chunk buf in add_payloads taken.0 (read_loop chunks taken.1)
