-- ===== src/Ble/Queue/Bounds.antt =====
-- The bounded queues of pihub/ble_dongle.py keep their bound, and put_newest keeps the newest.
use mathlib.Core.List.{append-nil, append_assoc}
use pihub_remote_nrf.Prelude.{
  sym, ◌∙◌, ℕ, ◌≤◌, ◌<◌, ◌≡◌, ◌⊎◌, some, List, [], ◌∷◌, ◌++◌, arith, length, length-append,
}
use pihub_remote_nrf.Ble.Queue.{put_nowait, drop_oldest, put_if_room, put_newest, put_each}

-- A queue within its greatest size, where it has one.
abbrev pub Fits {ℓ} : {A : Type ℓ} → ℕ → List A → Type 0
Fits maxsize q = (maxsize ≡ 0) ⊎ (length q ≤ maxsize)

module _ {A : Type 0} where
  pub put_nowait-Fits :
      (maxsize : ℕ) (a : A) (q q' : List A)
      → Fits maxsize q
      → put_nowait maxsize a q ≡ some q'
      → Fits maxsize q'
  unfolding put_nowait
  put_nowait-Fits maxsize a q q' f h = ground (arith, length-append q (a ∷ []))

  pub length-drop_oldest : (q : List A) → length (drop_oldest q) ≤ length q
  unfolding drop_oldest
  length-drop_oldest [] = omega arith
  length-drop_oldest (a ∷ q) = omega arith

  -- Into a queue within its bound, put_newest adds the item at the end: of all that is there, where the queue
  -- has no bound or room for one more, and of what is left without the oldest item, where it is full.
  pub put_newest-last :
      (maxsize : ℕ) (a : A) (q : List A)
      → Fits maxsize q
      → (((maxsize ≡ 0) ⊎ (length q < maxsize)) × (put_newest maxsize a q ≡ q ++ a ∷ []))
        ⊎ ((0 < maxsize)
            × (length q ≡ maxsize)
            × (put_newest maxsize a q ≡ drop_oldest q ++ a ∷ []))
  unfolding put_newest
  put_newest-last maxsize a [] f = ground arith
  put_newest-last maxsize a (x ∷ q) f = ground arith

  pub put_newest-Fits :
      (maxsize : ℕ) (a : A) (q : List A) → Fits maxsize q → Fits maxsize (put_newest maxsize a q)
  unfolding put_newest
  put_newest-Fits maxsize a [] f = ground (arith, length-append [] (a ∷ []))
  put_newest-Fits maxsize a (x ∷ q) f =
      ground (arith, length-append q (a ∷ []), length-append (x ∷ q) (a ∷ []))

  put_if_room-append :
      (maxsize : ℕ) (a : A) (xs q : List A)
      → Fits maxsize (q ++ a ∷ xs)
      → put_if_room maxsize a q ≡ q ++ a ∷ []
  unfolding put_if_room
  put_if_room-append maxsize a xs q f = ground (arith, length-append q (a ∷ xs))

  -- Putting items one by one into a queue with room appends them.
  pub put_each-append :
      (maxsize : ℕ) (xs q : List A) → Fits maxsize (q ++ xs) → put_each maxsize xs q ≡ q ++ xs
  unfolding put_each
  put_each-append maxsize [] q f = sym (append-nil q)
  put_each-append maxsize (x ∷ xs) q f = rw (put_if_room-append maxsize x xs q f) (
      put_each-append maxsize xs (q ++ x ∷ []) (rw (append_assoc q (x ∷ []) xs) f)
      ∙ append_assoc q (x ∷ []) xs)
