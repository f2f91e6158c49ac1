-- ===== src/Ble/Link/Invariant.antt =====
-- What holds of every link that the code of pihub/ble_dongle.py can reach.
use pihub_remote_nrf.Prelude.{ℕ, ◌≤◌, String, ◌≡◌, ◌⊎◌, true, false, some, [], length}
use pihub_remote_nrf.Prelude.Dict.{Dict}
use pihub_remote_nrf.Ble.Frames.{Bytes, CompiledBleFrames}
use pihub_remote_nrf.Ble.Queue.Bounds.{Fits}
use pihub_remote_nrf.Ble.Link.{
  Link, opened, force_reconnect, write_line, write_next, release_all, enqueue_strict, sent,
  key_down, key_up, compiled_key_down, compiled_key_up,
}
use pihub_remote_nrf.Ble.Rx.{rx_line_max, ingest_byte}

pub record IsValid (l : Link) : Type 0 where
  -- READY implies connected.
  pub ready_connected : (l.state.ready ≡ false) ⊎ (l.state.connected ≡ true)
  pub queue_fits : Fits l.tx_max l.tx_q
  -- Nothing waits for a port that is closed.
  pub closed_empty : (l.is_open ≡ true) ⊎ (l.tx_q ≡ [])
  pub line_fits : length l.rx_buf ≤ rx_line_max
  pub received_settled : (l.initial.received ≡ false) ⊎ (l.initial.settled ≡ true)

-- What can happen to a link: bytes from the dongle, keys, releases, control lines, the writer
-- taking a payload, the port opening and closing.
pub data Step : Link → Link → Type 0 where
  byte_in : (b : ℕ) (l : Link) → Step l (ingest_byte b l)
  down : (usage code : String) (l : Link) → Step l (key_down usage code l)
  up : (usage code : String) (l : Link) → Step l (key_up usage code l)
  compiled_down :
      (fs : CompiledBleFrames) (usage code : String) (l : Link)
      → Step l (compiled_key_down fs usage code l)
  compiled_up :
      (fs : CompiledBleFrames) (usage code : String) (l : Link)
      → Step l (compiled_key_up fs usage code l)
  strict : (payload : Bytes) {l l' : Link} → enqueue_strict payload l ≡ sent l' → Step l l'
  release : (l : Link) → Step l (release_all l)
  line_out : (line : Bytes) {l l' : Link} → write_line line l ≡ some l' → Step l l'
  written : (p : Bytes) {l l' : Link} → write_next l ≡ some (p, l') → Step l l'
  open_port : (l : Link) → Step l (opened l)
  close_port : (reason : String) (l : Link) → Step l (force_reconnect reason l)

pub data Reach (s : Link) : Link → Type 0 where
  here : Reach s s
  next : {l l' : Link} → Reach s l → Step l l' → Reach s l'
