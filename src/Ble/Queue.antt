-- ===== src/Ble/Queue.antt =====
-- asyncio.Queue as the dongle link and the dispatcher use it: a list, oldest first, with a greatest
-- size (0 for none). get_nowait on an empty queue and put_nowait on a full one are `none`.
pub mod Bounds
use pihub_remote_nrf.Prelude.{
  ℕ, ◌≡◌, Bool, Option, none, some, List, [], ◌∷◌, ◌++◌, ◌&&◌, ltb, leb, length, if◌then◌else◌,
}

module _ {ℓ} {A : Type ℓ} where
  unfoldable pub is_full : ℕ → List A → Bool
  is_full maxsize q = ltb 0 maxsize && leb maxsize (length q)

  unfoldable pub put_nowait : ℕ → A → List A → Option (List A)
  unfolding is_full
  put_nowait maxsize a q = if is_full maxsize q then none else some (q ++ a ∷ [])

  -- `with suppress(QueueEmpty): q.get_nowait()`
  unfoldable pub drop_oldest : List A → List A
  drop_oldest [] = []
  drop_oldest (a ∷ q) = q

  -- `with suppress(QueueFull): q.put_nowait(a)`
  unfoldable pub put_if_room : ℕ → A → List A → List A
  unfolding put_nowait
  put_if_room maxsize a q = elim (put_nowait maxsize a q) [ none ↦ q | some q' ↦ q' ]

  -- Put; when full, drop the oldest and try once more.
  unfoldable pub put_newest : ℕ → A → List A → List A
  unfolding put_if_room drop_oldest
  put_newest maxsize a q = elim (put_nowait maxsize a q) [
    | none ↦ put_if_room maxsize a (drop_oldest q)
    | some q' ↦ q'
  ]

  unfoldable pub put_each : ℕ → List A → List A → List A
  unfolding put_if_room
  put_each maxsize [] q = q
  put_each maxsize (a ∷ as') q = put_each maxsize as' (put_if_room maxsize a q)

  unfoldable pub put_each_newest : ℕ → List A → List A → List A
  unfolding put_newest
  put_each_newest maxsize [] q = q
  put_each_newest maxsize (a ∷ as') q = put_each_newest maxsize as' (put_newest maxsize a q)
