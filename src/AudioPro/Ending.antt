-- ===== src/AudioPro/Ending.antt =====
-- pihub/audiopro_speaker.py: the loop over the packets of a buffer ends (_read_loop's inner loop).
use pihub_remote_nrf.Prelude.{
  ℕ, zero, suc, ◌+◌, ◌-◌, ◌≤◌, ◌<◌, ◌≡◌, refl, ap, ◌∙◌, true, Option, none, some, List, [], ◌∷◌,
  arith, ltb, length, length-drop, drop, if_split, if◌then◌else◌,
}
use pihub_remote_nrf.Ble.Frames.{Bytes}
use pihub_remote_nrf.AudioPro.Packet.{
  at_header, from_header, length_field, Round, breaks, takes, take_packet, round, take_packets,
  add_payload,
}

-- What is left when a round is over: at most what there was, less where a payload was taken; and a buffer at
-- which a round has stopped, stops the next.
abbrev Shrinks : ℕ → Round → Type 0
Shrinks n (breaks rest) = round rest ≡ breaks rest
Shrinks n (takes p rest) = length rest < n

abbrev FromHeader : ℕ → Option Bytes → Type 0
FromHeader n none = Unit
FromHeader n (some b) = (length b ≤ n) × (at_header b ≡ true)

FromHeader-le : (n m : ℕ) (o : Option Bytes) → n ≤ m → FromHeader n o → FromHeader m o
FromHeader-le n m none h f = tt
FromHeader-le n m (some b) h f = (omega (arith, f.0), f.1)

from_header-FromHeader : (buf : Bytes) → FromHeader (length buf) (from_header buf)
unfolding from_header
from_header-FromHeader [] = tt
from_header-FromHeader (b ∷ bs) =
    if_split (FromHeader (suc (length bs))) (at_header (b ∷ bs)) (λ h. (omega arith, h))
      (λ _.
        FromHeader-le (length bs) (suc (length bs)) (from_header bs) (omega arith)
          (from_header-FromHeader bs))

header_first : (buf : Bytes) → at_header buf ≡ true → from_header buf ≡ some buf
unfolding from_header at_header
header_first [] h = ground (arith, h)
header_first (b ∷ bs) h = simp h

pub short_stops : (buf : Bytes) → length buf < 20 → round buf ≡ breaks buf
unfolding round
short_stops buf h = ground (arith, h)

-- A round from a header with at least twenty bytes is that of take_packet.
pub long_round :
    (buf : Bytes) → 20 ≤ length buf → at_header buf ≡ true → round buf ≡ take_packet buf
unfolding round
long_round buf long h = rw (header_first buf h) (ground (arith, long))

take_packet-Shrinks :
    (buf : Bytes) (n : ℕ)
    → 20 ≤ length buf
    → length buf ≤ n
    → at_header buf ≡ true
    → Shrinks n (take_packet buf)
unfolding take_packet
take_packet-Shrinks buf n long le h =
    if_split (Shrinks n) (ltb (length buf) (20 + length_field buf))
      (λ short. long_round buf long h ∙ ground (arith, short))
      (λ whole. omega (arith, length-drop (20 + length_field buf) buf))

round-Shrinks : (buf : Bytes) → Shrinks (length buf) (round buf)
unfolding round
round-Shrinks buf =
    if_split (Shrinks (length buf)) (ltb (length buf) 20)
      (λ short. short_stops buf (ground (arith, short)))
      (λ long. by_header (from_header buf) (from_header-FromHeader buf))
  where
    by_header :
        (o : Option Bytes)
        → FromHeader (length buf) o
        → Shrinks (length buf) (elim o [
          | none ↦ breaks (drop (length buf - 3) buf)
          | some buf' ↦ if ltb (length buf') 20 then breaks buf' else take_packet buf'
        ])
    by_header none f =
        short_stops (drop (length buf - 3) buf) (omega (arith, length-drop (length buf - 3) buf))
    by_header (some b) f =
        if_split (Shrinks (length buf)) (ltb (length b) 20)
          (λ short. short_stops b (ground (arith, short)))
          (λ long. take_packet-Shrinks b (length buf) (ground (arith, long)) f.0 f.1)

stops_there :
    (fuel : ℕ) (buf : Bytes)
    → length buf < fuel
    → round (take_packets fuel buf).1 ≡ breaks (take_packets fuel buf).1
unfolding take_packets
stops_there zero buf h = absurd (omega arith)
stops_there (suc fuel) buf h =
    by_round (round buf) (round-Shrinks buf) (λ rest. stops_there fuel rest)
  where
    by_round :
        (r : Round)
        → Shrinks (length buf) r
        → ((rest : Bytes)
            → length rest < fuel
            → round (take_packets fuel rest).1 ≡ breaks (take_packets fuel rest).1)
        → round
            (elim r as (λ _. List Bytes × Bytes) [
              | breaks rest ↦ ([], rest)
              | takes p rest ↦ add_payload p (take_packets fuel rest)
            ]).1
          ≡ breaks
              (elim r as (λ _. List Bytes × Bytes) [
                | breaks rest ↦ ([], rest)
                | takes p rest ↦ add_payload p (take_packets fuel rest)
              ]).1
    by_round (breaks rest) s ih = s
    by_round (takes p rest) s ih = ih rest (omega (arith, s, h))

enough_fuel :
    (f g : ℕ) (buf : Bytes)
    → length buf < f
    → length buf < g
    → take_packets f buf ≡ take_packets g buf
unfolding take_packets
enough_fuel zero g buf hf hg = absurd (omega arith)
enough_fuel (suc f) zero buf hf hg = absurd (omega arith)
enough_fuel (suc f) (suc g) buf hf hg =
    by_round (round buf) (round-Shrinks buf) (λ rest. enough_fuel f g rest)
  where
    by_round :
        (r : Round)
        → Shrinks (length buf) r
        → ((rest : Bytes)
            → length rest < f
            → length rest < g
            → take_packets f rest ≡ take_packets g rest)
        → (elim r as (λ _. List Bytes × Bytes) [
          | breaks rest ↦ ([], rest)
          | takes p rest ↦ add_payload p (take_packets f rest)
        ])
          ≡ (elim r as (λ _. List Bytes × Bytes) [
            | breaks rest ↦ ([], rest)
            | takes p rest ↦ add_payload p (take_packets g rest)
          ])
    by_round (breaks rest) s ih = refl
    by_round (takes p rest) s ih =
        ap (add_payload p) (ih rest (omega (arith, s, hf)) (omega (arith, s, hg)))

-- With more fuel than there are bytes, the loop over a buffer's packets ends by its break, at a buffer at
-- which the next round breaks too, and any such fuel gives the same.
pub take_packets-ends :
    (fuel : ℕ) (buf : Bytes)
    → length buf < fuel
    → (round (take_packets fuel buf).1 ≡ breaks (take_packets fuel buf).1)
      × (take_packets fuel buf ≡ take_packets (suc (length buf)) buf)
take_packets-ends fuel buf h =
    (stops_there fuel buf h, enough_fuel fuel (suc (length buf)) buf h (omega arith))
