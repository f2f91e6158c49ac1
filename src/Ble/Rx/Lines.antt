-- ===== src/Ble/Rx/Lines.antt =====
-- How bytes from the dongle come together into lines, whatever chunks they arrive in
-- (_ingest_rx_bytes of pihub/ble_dongle.py).
use mathlib.Core.List.{append_assoc, append-nil}
use pihub_remote_nrf.Prelude.{
  ℕ, ◌+◌, ◌≤◌, ◌<◌, ◌≡◌, refl, ◌∙◌, sym, ap, ◌≢◌, List, [], ◌∷◌, ◌++◌, arith, length, length-append,
  All,
}
use pihub_remote_nrf.Ble.Frames.{Bytes}
use pihub_remote_nrf.Ble.Link.{Link}
use pihub_remote_nrf.Ble.Rx.{rx_line_max, take_line, ingest_byte, ingest_rx_bytes}

-- A byte inside a line: neither NUL nor the line feed.
abbrev pub IsInner : ℕ → Type 0
IsInner b = (b ≢ 0) × (b ≢ 10)

-- A chunk may be cut anywhere.
ingest-append :
    (a b : Bytes) (l : Link) → ingest_rx_bytes (a ++ b) l ≡ ingest_rx_bytes b (ingest_rx_bytes a l)
unfolding ingest_rx_bytes
ingest-append [] b l = refl
ingest-append (x ∷ a) b l = ingest-append a b (ingest_byte x l)

ingest_inner :
    (b : ℕ) (l : Link)
    → IsInner b
    → length l.rx_buf < rx_line_max
    → ingest_byte b l ≡ record l { rx_buf = l.rx_buf ++ b ∷ [] }
unfolding ingest_byte
ingest_inner b l h room = ground (arith, length-append l.rx_buf (b ∷ []))

ingest_newline :
    (l : Link)
    → length l.rx_buf < rx_line_max
    → ingest_byte 10 l ≡ take_line (l.rx_buf ++ 10 ∷ []) (record l { rx_buf = [] })
unfolding ingest_byte
ingest_newline l room = ground (arith, length-append l.rx_buf (10 ∷ []))

ingest_each :
    (bs : Bytes) (l : Link)
    → All IsInner bs
    → length l.rx_buf + length bs ≤ rx_line_max
    → ingest_rx_bytes bs l ≡ record l { rx_buf = l.rx_buf ++ bs }
unfolding ingest_rx_bytes
ingest_each [] l h room = ap (λ q. record l { rx_buf = q }) (sym (append-nil l.rx_buf))
ingest_each (b ∷ bs) l h room = rw (ingest_inner b l h.0 (omega arith)) (
    ingest_each bs (record l { rx_buf = l.rx_buf ++ b ∷ [] }) h.1
      (omega (arith, length-append l.rx_buf (b ∷ [])))
    ∙ ap (λ q. record l { rx_buf = q }) (append_assoc l.rx_buf (b ∷ []) bs))

-- One call of _on_serial_readable for each chunk.
abbrev pub ingest_chunks : List Bytes → Link → Link
ingest_chunks [] l = l
ingest_chunks (c ∷ cs) l = ingest_chunks cs (ingest_rx_bytes c l)

abbrev pub joined : List Bytes → Bytes
joined [] = []
joined (c ∷ cs) = c ++ joined cs

ingest_chunks-joined :
    (cs : List Bytes) (l : Link) → ingest_chunks cs l ≡ ingest_rx_bytes (joined cs) l
ingest_chunks-joined [] l = unfold ingest_rx_bytes in refl
ingest_chunks-joined (c ∷ cs) l =
    ingest_chunks-joined cs (ingest_rx_bytes c l) ∙ sym (ingest-append c (joined cs) l)

ingest_whole_line :
    (line : Bytes) (l : Link)
    → All IsInner line
    → length line < rx_line_max
    → l.rx_buf ≡ []
    → ingest_rx_bytes (line ++ 10 ∷ []) l ≡ take_line (line ++ 10 ∷ []) (record l { rx_buf = [] })
ingest_whole_line line l h room start =
    let at_start : record l { rx_buf = l.rx_buf ++ line } ≡ record l { rx_buf = line } = rw start in
    ingest-append line (10 ∷ []) l
    ∙ ap (ingest_rx_bytes (10 ∷ []))
        (ingest_each line l h (omega (arith, ap length start)) ∙ at_start)
    ∙ (unfold ingest_rx_bytes in ingest_newline (record l { rx_buf = line }) room)

-- A line of fewer than 512 bytes, none of them NUL or a line feed, and its line feed, arriving at
-- an empty buffer in chunks cut anywhere, is handled once, as that line, and leaves the buffer
-- as the line's handling left it from an empty buffer.
pub ingest_chunks-line :
    (line : Bytes) (chunks : List Bytes) (l : Link)
    → All IsInner line
    → length line < rx_line_max
    → l.rx_buf ≡ []
    → joined chunks ≡ line ++ 10 ∷ []
    → ingest_chunks chunks l ≡ take_line (line ++ 10 ∷ []) (record l { rx_buf = [] })
ingest_chunks-line line chunks l h room start cut =
    ingest_chunks-joined chunks l
    ∙ ap (λ bs. ingest_rx_bytes bs l) cut
    ∙ ingest_whole_line line l h room start
