-- ===== src/Ble/Link.antt =====
-- pihub/ble_dongle.py: the link's state, the frames queued for the dongle, keys and macros.
-- The serial port itself, the tasks and the log lines are not modelled: `is_open` says whether the
-- port is open.
pub mod Invariant
use pihub_remote_nrf.Prelude.{
  ℕ, ◌+◌, String, ◌≡◌, Bool, true, false, Option, none, some, List, [], ◌∷◌, ◌++◌, ◌==◌, ◌&&◌, not,
  nat_eq, length, keep_if, if◌then◌else◌,
}
use pihub_remote_nrf.Prelude.Text.{of_codes}
use pihub_remote_nrf.Prelude.Dict
use pihub_remote_nrf.Prelude.Int.{ℤ}
use pihub_remote_nrf.InitialStatus
use pihub_remote_nrf.InitialStatus.{InitialStatus}
use pihub_remote_nrf.Ble.Frames.{
  Bytes, CompiledBleFrames, HidKeymap, kb_zeros, cc_zeros, is_hid_frame, encode_keyboard_down,
  encode_keyboard_up, encode_consumer_down, encode_consumer_up,
}
use pihub_remote_nrf.Ble.Queue.{put_nowait, put_each, put_newest, put_each_newest}

pub record ConnParams : Type 0 where
  pub interval_ms : ℤ
  pub latency : ℤ
  pub timeout_ms : ℤ

pub record DongleState : Type 0 where
  pub ready : Bool
  pub advertising : Bool
  pub connected : Bool
  pub sec : ℤ
  pub error : Bool
  pub conn_params : Option ConnParams
  pub last_disc_reason : Option String

abbrev pub no_state : DongleState
no_state = record {
  ready = false;
  advertising = false;
  connected = false;
  sec = ℤ.pos 0;
  error = false;
  conn_params = none;
  last_disc_reason = none;
}

pub record Link : Type 0 where
  pub hid : HidKeymap
  pub is_open : Bool
  pub state : DongleState
  pub transport_evt : Bool
  pub last_error : Option String
  pub firmware : Option String
  pub tx_q : List Bytes
  pub tx_max : ℕ
  pub rx_buf : Bytes
  pub initial : InitialStatus

-- __init__ with tx_queue=512, before the port is open.
abbrev pub new_link : HidKeymap → Link
new_link hid = record {
  hid = hid;
  is_open = false;
  state = no_state;
  transport_evt = false;
  last_error = none;
  firmware = none;
  tx_q = [];
  tx_max = 512;
  rx_buf = [];
  initial = InitialStatus.init;
}

-- _try_open_and_handshake, once the port is open.
unfoldable pub opened : Link → Link
opened l = record l {
  is_open = true;
  state = no_state;
  transport_evt = false;
  last_error = none;
  rx_buf = [];
}

-- _close_serial with _clear_tx_queue
unfoldable pub close_serial : Link → Link
close_serial l = record l { is_open = false; tx_q = [] }

unfoldable pub force_reconnect : String → Link → Link
unfolding close_serial
force_reconnect reason l = record (close_serial (record l { last_error = some reason })) {
  state = no_state;
  transport_evt = false;
}

-- _write_line, for a line with no line end of its own: the text's bytes and a newline. `none` says
-- that the call waits, with the queue full.
unfoldable pub write_line : Bytes → Link → Option Link
unfolding put_nowait
write_line line l =
    if l.is_open
    then elim (put_nowait l.tx_max (line ++ 10 ∷ []) l.tx_q) [
      | none ↦ none
      | some q ↦ some (record l { tx_q = q })
    ]
    else some l

-- One round of _writer_loop: the oldest payload goes to the port.
unfoldable pub write_next : Link → Option (Bytes × Link)
write_next l = elim l.tx_q [ [] ↦ none | p ∷ q ↦ some (p, record l { tx_q = q }) ]

-- _drain_hid_frames
unfoldable pub drain_hid_frames : ℕ → List Bytes → List Bytes
unfolding is_hid_frame put_each
drain_hid_frames tx_max q = put_each tx_max (keep_if (λ p. not (is_hid_frame p)) q) []

unfoldable pub enqueue_priority_frames : List Bytes → Link → Link
unfolding drain_hid_frames put_each_newest
enqueue_priority_frames frames l =
    if l.is_open
    then record l { tx_q = put_each_newest l.tx_max frames (drain_hid_frames l.tx_max l.tx_q) }
    else l

unfoldable pub release_all : Link → Link
unfolding enqueue_priority_frames
release_all l = enqueue_priority_frames (kb_zeros ∷ cc_zeros ∷ []) l

unfoldable pub enqueue_nowait : Bytes → Link → Link
unfolding put_newest
enqueue_nowait payload l =
    if l.is_open && l.state.connected && l.state.ready
    then record l { tx_q = put_newest l.tx_max payload l.tx_q }
    else l

-- Why a strict send raises RuntimeError.
pub data SendError : Type 0 where
  unknown_code transport_not_open not_connected not_ready tx_queue_full : SendError

pub data Sent : Type 0 where
  sent : Link → Sent
  not_sent : SendError → Sent

unfoldable pub enqueue_strict : Bytes → Link → Sent
unfolding put_nowait
enqueue_strict payload l =
    if not l.is_open
    then not_sent transport_not_open
    else if not l.state.connected
    then not_sent not_connected
    else if not l.state.ready
    then not_sent not_ready
    else elim (put_nowait l.tx_max payload l.tx_q) [
      | none ↦ not_sent tx_queue_full
      | some q ↦ sent (record l { tx_q = q })
    ]

-- `if payload: self._enqueue_nowait(payload)`
unfoldable pub enqueue_some : Option Bytes → Link → Link
unfolding enqueue_nowait
enqueue_some none l = l
enqueue_some (some []) l = l
enqueue_some (some (b ∷ bs)) l = enqueue_nowait (b ∷ bs) l

-- `if not payload: raise`, else the strict send.
unfoldable pub enqueue_some_strict : Option Bytes → Link → Sent
unfolding enqueue_strict
enqueue_some_strict none l = not_sent unknown_code
enqueue_some_strict (some []) l = not_sent unknown_code
enqueue_some_strict (some (b ∷ bs)) l = enqueue_strict (b ∷ bs) l

unfoldable pub encode_down : HidKeymap → String → String → Option Bytes
unfolding encode_keyboard_down encode_consumer_down
encode_down hid usage code =
    if usage == "keyboard" then encode_keyboard_down hid code else encode_consumer_down hid code

unfoldable pub encode_up : HidKeymap → String → String → Option Bytes
unfolding encode_keyboard_up encode_consumer_up
encode_up hid usage code =
    if usage == "keyboard" then encode_keyboard_up hid code else encode_consumer_up hid code

unfoldable pub key_down : String → String → Link → Link
unfolding encode_down enqueue_some
key_down usage code l = enqueue_some (encode_down l.hid usage code) l

unfoldable pub key_up : String → String → Link → Link
unfolding encode_up enqueue_some
key_up usage code l = enqueue_some (encode_up l.hid usage code) l

unfoldable pub key_down_strict : String → String → Link → Sent
unfolding encode_down enqueue_some_strict
key_down_strict usage code l = enqueue_some_strict (encode_down l.hid usage code) l

unfoldable pub key_up_strict : String → String → Link → Sent
unfolding encode_up enqueue_some_strict
key_up_strict usage code l = enqueue_some_strict (encode_up l.hid usage code) l

unfoldable pub compiled_key_down : CompiledBleFrames → String → String → Link → Link
unfolding enqueue_some
compiled_key_down frames usage code l =
    enqueue_some (Dict.get code (if usage == "keyboard" then frames.kb_down else frames.cc_down)) l

unfoldable pub compiled_key_up : CompiledBleFrames → String → String → Link → Link
unfolding enqueue_some
compiled_key_up frames usage code l =
    enqueue_some (Dict.get code (if usage == "keyboard" then frames.kb_up else frames.cc_up)) l
