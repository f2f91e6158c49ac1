-- ===== src/Ble/Release.antt =====
-- release_all of pihub/ble_dongle.py: the zero reports win over everything queued.
use mathlib.Core.List.{append_assoc}
use pihub_remote_nrf.Prelude.{
  ℕ, ◌+◌, ◌-◌, ◌≤◌, ◌≡◌, ◌≢◌, ◌∙◌, ap, ◌⊎◌, true, not, List, [], ◌∷◌, ◌++◌, arith, nat_eq, length,
  length-append, length-drop, drop, drop-append, drop-drop, keep_if, length-keep_if-le,
  if◌then◌else◌,
}
use pihub_remote_nrf.Ble.Frames.{Bytes, kb_zeros, cc_zeros, is_hid_frame}
use pihub_remote_nrf.Ble.Queue.{put_newest}
use pihub_remote_nrf.Ble.Queue.Bounds.{Fits, put_each-append, put_newest-Fits}
use pihub_remote_nrf.Ble.Link.{Link, drain_hid_frames, release_all}

-- How many items are too many for a queue of this greatest size.
abbrev pub excess : ℕ → ℕ → ℕ
excess maxsize n = if nat_eq maxsize 0 then 0 else n - maxsize

-- The queued items that are no HID frames: the control lines.
abbrev pub controls : List Bytes → List Bytes
controls = keep_if (λ p. not (is_hid_frame p))

-- The two excesses add up, and the second leaves the item put first.
two_excesses :
    (maxsize n : ℕ)
    → (maxsize ≡ 0) ⊎ (n ≤ maxsize)
    → maxsize ≢ 1
    → (excess maxsize (n - excess maxsize (n + 1) + 1 + 1) ≤ n - excess maxsize (n + 1))
      × (excess maxsize (n + 1) + excess maxsize (n - excess maxsize (n + 1) + 1 + 1)
          ≡ excess maxsize (n + 2))
two_excesses maxsize n f h = ground arith

module _ {A : Type 0} where
  drop_excess :
      (maxsize : ℕ) (x : A) (q : List A)
      → length (x ∷ q) ≡ maxsize
      → drop (length (x ∷ q) + 1 - maxsize) (x ∷ q) ≡ q
  drop_excess maxsize x q h = let one : length (x ∷ q) + 1 - maxsize ≡ 1 = omega arith in rw one

  put_newest-excess :
      (maxsize : ℕ) (a : A) (q : List A)
      → Fits maxsize q
      → put_newest maxsize a q ≡ drop (excess maxsize (length q + 1)) q ++ a ∷ []
  unfolding put_newest
  put_newest-excess maxsize a [] f = ground arith
  put_newest-excess maxsize a (x ∷ q) f = ground (arith, drop_excess maxsize x q)

  drop_twice :
      (m n : ℕ) (a b : A) (q : List A)
      → n ≤ length q - m
      → drop n (drop m q ++ a ∷ []) ++ b ∷ [] ≡ drop (m + n) q ++ a ∷ b ∷ []
  drop_twice m n a b q h =
      rw (drop-append n (drop m q) (a ∷ []) (omega (arith, length-drop m q)), drop-drop n m q)
        (append_assoc (drop (m + n) q) (a ∷ []) (b ∷ []))

  pub two_newest :
      (maxsize : ℕ) (a b : A) (q : List A)
      → Fits maxsize q
      → maxsize ≢ 1
      → put_newest maxsize b (put_newest maxsize a q)
        ≡ drop (excess maxsize (length q + 2)) q ++ a ∷ b ∷ []
  two_newest maxsize a b q f h =
      let (room, total) = two_excesses maxsize (length q) f h in
      let m = excess maxsize (length q + 1) in
      let len : length (drop m q ++ a ∷ []) ≡ length q - m + 1 =
        omega (arith, length-append (drop m q) (a ∷ []), length-drop m q) in
      rw (put_newest-excess maxsize a q f) (
        put_newest-excess maxsize b (drop m q ++ a ∷ [])
          (rw (← put_newest-excess maxsize a q f) (put_newest-Fits maxsize a q f))
        ∙ (rw len (drop_twice m _ a b q room ∙ ap (λ k. drop k q ++ a ∷ b ∷ []) total)))

controls-Fits : (maxsize : ℕ) (q : List Bytes) → Fits maxsize q → Fits maxsize (controls q)
controls-Fits maxsize q f = ground (arith, length-keep_if-le (λ p. not (is_hid_frame p)) q)

-- Draining takes out the HID frames and leaves the control lines in their order.
drain-eq-controls :
    (maxsize : ℕ) (q : List Bytes) → Fits maxsize q → drain_hid_frames maxsize q ≡ controls q
unfolding drain_hid_frames
drain-eq-controls maxsize q f = put_each-append maxsize (controls q) [] (controls-Fits maxsize q f)

pub drain_hid_frames-Fits :
    (maxsize : ℕ) (q : List Bytes) → Fits maxsize q → Fits maxsize (drain_hid_frames maxsize q)
drain_hid_frames-Fits maxsize q f = rw (drain-eq-controls maxsize q f) (controls-Fits maxsize q f)

-- On an open link whose queue is within its bound (and the bound is not one), release_all leaves
-- the queued control lines in their order, less as many of the oldest as the two reports need
-- room for, then the zero keyboard report and the zero consumer report; no queued key remains.
pub release_all-tx_q :
    (l : Link)
    → l.is_open ≡ true
    → Fits l.tx_max l.tx_q
    → l.tx_max ≢ 1
    → (release_all l).tx_q
      ≡ drop (excess l.tx_max (length (controls l.tx_q) + 2)) (controls l.tx_q)
        ++ kb_zeros ∷ cc_zeros ∷ []
unfolding release_all
release_all-tx_q l o f h =
    rw (o, drain-eq-controls l.tx_max l.tx_q f)
      (two_newest l.tx_max kb_zeros cc_zeros (controls l.tx_q) (controls-Fits l.tx_max l.tx_q f) h)
