-- ===== src/AudioPro/Framing.antt =====
-- pihub/audiopro_speaker.py: packets that arrive in any chunks are taken out as they were made.
use mathlib.Core.List.{append_assoc, append-nil}
use pihub_remote_nrf.Prelude.{
  ℕ, zero, suc, ◌+◌, ◌*◌, ◌/◌, ◌%◌, ◌≤◌, ◌<◌, ◌≡◌, refl, sym, ap, subst, ◌∙◌, inl, inr, List, [],
  ◌∷◌, ◌++◌, arith, ltb, length, length-append, length-drop, drop-drop, take, drop, All, lt_or_le,
  if◌then◌else◌,
}
use pihub_remote_nrf.Ble.Frames.{Bytes}
use pihub_remote_nrf.AudioPro.Packet.{
  sum, pack, tcp_header, reserved, mk_packet, at_header, length_field, breaks, takes, take_packet,
  round, take_packets, read_chunk, read_loop, add_payload, add_payloads,
}
use pihub_remote_nrf.AudioPro.Ending.{short_stops, long_round}

IsShort : Bytes → List Bytes → Type 0
IsShort b [] = Unit
IsShort b (p ∷ ps) = length b < 20 + length p

-- The packets of these payloads, one after the other.
unfoldable pub stream : List Bytes → Bytes
unfolding mk_packet
stream [] = []
stream (p ∷ ps) = mk_packet p ++ stream ps

split_left :
    {A : Type 0} (b r x y : List A)
    → b ++ r ≡ x ++ y
    → length x ≤ length b
    → (b ≡ x ++ drop (length x) b) × (drop (length x) b ++ r ≡ y)
split_left b r [] y h le = (refl, h)
split_left [] r (x ∷ xs) y h le = absurd (omega arith)
split_left (b ∷ bs) r (x ∷ xs) y h le =
    let same : b ≡ x = cc in
    let (left, right) = split_left bs r xs y (cc) (omega arith) in (cc, right)

unpack_pack :
    (n : ℕ)
    → n < 4294967296
    → n % 256 + 256 * (n / 256 % 256) + 65536 * (n / 65536 % 256) + 16777216 * (n / 16777216 % 256)
      ≡ n
unpack_pack n h = omega arith

-- A packet's first twenty bytes.
abbrev front : Bytes → Bytes
front p = tcp_header ++ (pack (length p) ++ (pack (sum p % 4294967296) ++ reserved))

take_packet-field :
    (buf : Bytes) (n : ℕ)
    → length_field buf ≡ n
    → take_packet buf ≡ (
        if ltb (length buf) (20 + n)
        then breaks buf
        else takes (take n (drop 20 buf)) (drop n (drop 20 buf)))
unfolding take_packet
take_packet-field buf n h = rw (h, drop-drop n 20 buf) refl

round-front :
    (p b : Bytes)
    → length p < 4294967296
    → round (front p ++ b) ≡ (
        if ltb (length b) (length p)
        then breaks (front p ++ b)
        else takes (take (length p) b) (drop (length p) b))
unfolding at_header length_field
round-front p b h =
    long_round (front p ++ b) (omega arith) refl
    ∙ take_packet-field (front p ++ b) (length p) (unpack_pack (length p) h)
    ∙ ap (λ c. if c then breaks (front p ++ b) else takes (take (length p) b) (drop (length p) b))
        (ground arith)

take-append : {A : Type 0} (xs ys : List A) → take (length xs) (xs ++ ys) ≡ xs
take-append [] ys = refl
take-append (x ∷ xs) ys = ap (λ zs. x ∷ zs) (take-append xs ys)

-- What the loop takes of a buffer that begins these packets, and what it leaves of them.
data Taken (ps : List Bytes) (r : Bytes) : List Bytes × Bytes → Type 0 where
  taken :
      (qs later : List Bytes) (b : Bytes)
      → qs ++ later ≡ ps
      → b ++ r ≡ stream later
      → IsShort b later
      → Taken ps r (qs, b)

take_packets-breaks :
    (fuel : ℕ) (b c : Bytes) → round b ≡ breaks c → take_packets (suc fuel) b ≡ ([], c)
unfolding take_packets
take_packets-breaks fuel b c h =
    ap
      (λ x. elim x as (λ _. List Bytes × Bytes) [
        | breaks rest ↦ ([], rest)
        | takes p rest ↦ add_payload p (take_packets fuel rest)
      ])
      h

take_packets-takes :
    (fuel : ℕ) (p b c : Bytes)
    → round b ≡ takes p c
    → take_packets (suc fuel) b ≡ add_payload p (take_packets fuel c)
unfolding take_packets
take_packets-takes fuel p b c h =
    ap
      (λ x. elim x as (λ _. List Bytes × Bytes) [
        | breaks rest ↦ ([], rest)
        | takes q rest ↦ add_payload q (take_packets fuel rest)
      ])
      h

Taken-add :
    {ps qs : List Bytes} {r b : Bytes} (p : Bytes)
    → Taken ps r (qs, b)
    → Taken (p ∷ ps) r (p ∷ qs, b)
Taken-add p (taken qs later b e1 e2 short) = taken (p ∷ qs) later b (ap (λ l. p ∷ l) e1) e2 short

-- A buffer that begins a packet that is not whole.
Taken-short :
    (fuel : ℕ) (p : Bytes) (ps : List Bytes) (b r : Bytes)
    → length b < 20 + length p
    → round b ≡ breaks b
    → b ++ r ≡ stream (p ∷ ps)
    → Taken (p ∷ ps) r (take_packets (suc fuel) b)
unfolding IsShort
Taken-short fuel p ps b r short stops e =
    subst (Taken (p ∷ ps) r) (sym (take_packets-breaks fuel b b stops))
      (taken [] (p ∷ ps) b refl e short)

-- A buffer that begins with a packet's first twenty bytes.
Taken-front :
    (fuel : ℕ) (p : Bytes) (ps : List Bytes) (b r : Bytes)
    → length p < 4294967296
    → b ++ r ≡ p ++ stream ps
    → ((c : Bytes) → length c ≤ length b → c ++ r ≡ stream ps → Taken ps r (take_packets fuel c))
    → Taken (p ∷ ps) r (take_packets (suc fuel) (front p ++ b))
unfolding stream mk_packet
Taken-front fuel p ps b r fits e next = elim (lt_or_le (length b) (length p)) [
  | inl short ↦
      Taken-short fuel p ps (front p ++ b) r (omega (arith, short))
        (round-front p b fits ∙ ground (arith, short)) (ap (λ l. front p ++ l) e)
  | inr whole ↦
      let (left, right) = split_left b r p (stream ps) e whole in
      subst (Taken (p ∷ ps) r)
        (sym (
          take_packets-takes fuel p (front p ++ b) (drop (length p) b) (
            round-front p b fits
            ∙ ground (arith, whole)
            ∙ ap (λ q. takes q (drop (length p) b))
                (ap (take (length p)) left ∙ take-append p (drop (length p) b)))))
        (Taken-add p (next (drop (length p) b) (omega (arith, length-drop (length p) b)) right))
]

take_packets-Taken :
    (fuel : ℕ) (ps : List Bytes) (b r : Bytes)
    → length b < fuel
    → All (λ p. length p < 4294967296) ps
    → b ++ r ≡ stream ps
    → Taken ps r (take_packets fuel b)
unfolding stream mk_packet IsShort
take_packets-Taken zero ps b r le fits e = absurd (omega arith)
take_packets-Taken (suc fuel) [] [] r le fits e =
    subst (Taken [] r) (sym (take_packets-breaks fuel [] [] (short_stops [] (omega arith))))
      (taken [] [] [] refl e tt)
take_packets-Taken (suc fuel) [] (x ∷ b) r le fits e = absurd (cc)
take_packets-Taken (suc fuel) (p ∷ ps) b r le fits e = elim (lt_or_le (length b) 20) [
  | inl short ↦ Taken-short fuel p ps b r (omega (arith, short)) (short_stops b short) e
  | inr long ↦
      let (left, right) = split_left b r (front p) (p ++ stream ps) e long in
      subst (λ c. Taken (p ∷ ps) r (take_packets (suc fuel) c)) (sym left)
        (Taken-front fuel p ps (drop 20 b) r fits.0 right (λ c shorter.
          take_packets-Taken fuel ps c r (omega (arith, le, long, shorter, length-drop 20 b))
            fits.1))
]

abbrev pub joined : List Bytes → Bytes
joined [] = []
joined (chunk ∷ chunks) = chunk ++ joined chunks

All-later : (P : Bytes → Type 0) (xs ys : List Bytes) → All P (xs ++ ys) → All P ys
All-later P [] ys h = h
All-later P (x ∷ xs) ys h = All-later P xs ys h.1

nothing_left :
    (ps : List Bytes) (b : Bytes) → b ++ [] ≡ stream ps → IsShort b ps → read_loop [] b ≡ (ps, [])
unfolding read_loop stream mk_packet IsShort
nothing_left [] b e short = ap (λ c. ([], c)) (sym (append-nil b) ∙ e)
nothing_left (p ∷ ps) b e short =
    absurd (omega (arith, ap length (sym (append-nil b) ∙ e), length-append p (stream ps), short))

-- From a buffer that begins what is left of the packets.
read_loop-shorts :
    (chunks ps : List Bytes) (b : Bytes)
    → All (λ p. length p < 4294967296) ps
    → b ++ joined chunks ≡ stream ps
    → IsShort b ps
    → read_loop chunks b ≡ (ps, [])
unfolding read_loop read_chunk
read_loop-shorts [] ps b fits e short = nothing_left ps b e short
read_loop-shorts (chunk ∷ chunks) ps b fits e short =
    by_taken (read_chunk chunk b)
      (take_packets-Taken (suc (length (b ++ chunk))) ps (b ++ chunk) (joined chunks) (omega arith)
        fits (append_assoc b chunk (joined chunks) ∙ e))
      (λ later c. read_loop-shorts chunks later c)
  where
    by_taken :
        (x : List Bytes × Bytes)
        → Taken ps (joined chunks) x
        → ((later : List Bytes) (c : Bytes)
            → All (λ p. length p < 4294967296) later
            → c ++ joined chunks ≡ stream later
            → IsShort c later
            → read_loop chunks c ≡ (later, []))
        → add_payloads x.0 (read_loop chunks x.1) ≡ (ps, [])
    by_taken _ (taken qs later c e1 e2 short) ih =
        ap (add_payloads qs)
          (ih later c (All-later _ qs later (subst (All _) (sym e1) fits)) e2 short)
        ∙ ap (λ l. (l, [])) e1

-- Payloads each shorter than 2 ^ 32 bytes, made into packets that follow one another and cut into chunks
-- anywhere, are taken out by the loop over the chunks as they were, in their order, and nothing is left.
pub read_loop-stream :
    (ps chunks : List Bytes)
    → All (λ p. length p < 4294967296) ps
    → joined chunks ≡ stream ps
    → read_loop chunks [] ≡ (ps, [])
unfolding IsShort
read_loop-stream [] chunks fits e = read_loop-shorts chunks [] [] fits e tt
read_loop-stream (p ∷ ps) chunks fits e = read_loop-shorts chunks (p ∷ ps) [] fits e (omega arith)
