-- ===== src/Reader/Steps.antt =====
-- pihub/unifying_reader.py: every order of its events, its worker's rounds, and the rounds of its outer
-- loop, from the start, and what holds in each. The reader is not stopped.
use pihub_remote_nrf.Prelude.{
  ℕ, suc, ◌+◌, ◌≤◌, String, ◌≡◌, Bool, true, false, not, Option, none, some, List, [], ◌∷◌, ◌++◌,
  ◌&&◌, if◌then◌else◌,
}
use pihub_remote_nrf.Prelude.Dict.{Dict}
use pihub_remote_nrf.Ble.Queue.Bounds.{Fits}
use pihub_remote_nrf.Reader.Filter.{InputEvent, Edge, on_event}
use pihub_remote_nrf.Reader.Loop.{
  Reader, new_reader, input, drain, no_device, open_failed, opened, lose, is_gone, closed, Loss,
}

-- The reader with all the edges it has made, in order, and how often a device was opened.
pub record Watched : Type 0 where
  pub reader : Reader
  pub made : List Edge
  pub opens : ℕ

abbrev pub edge_list : Option Edge → List Edge
edge_list none = []
edge_list (some e) = e ∷ []

module _ (key_name : ℕ → Option String) (map : Dict String) where
  pub data Step : Watched → Watched → Type 0 where
    reads :
        (event : InputEvent) (s : Watched)
        → s.reader.input_open ≡ true
        → s.reader.losing ≡ none
        → Step s (record s {
          reader = input key_name map event s.reader;
          made = s.made ++ edge_list (on_event key_name map event s.reader.filter).1;
        })
    drains : (r : Reader) (s : Watched) → drain s.reader ≡ some r → Step s (record s { reader = r })
    finds_none :
        (receiver_present : Bool) (s : Watched)
        → s.reader.input_open ≡ false
        → Step s (record s { reader = no_device receiver_present s.reader })
    fails :
        (receiver_present : Bool) (exc : String) (s : Watched)
        → s.reader.input_open ≡ false
        → Step s (record s { reader = open_failed receiver_present exc s.reader })
    opens_one :
        (receiver_present grabbed : Bool) (s : Watched)
        → s.reader.input_open ≡ false
        → Step s
            (record s { reader = opened receiver_present grabbed s.reader; opens = suc s.opens })
    loses :
        (why : Loss) (s : Watched)
        → s.reader.input_open ≡ true
        → s.reader.losing ≡ none
        → Step s (record s { reader = lose why s.reader })
    closes :
        (why : Loss) (s : Watched)
        → s.reader.losing ≡ some why
        → Step s (record s { reader = closed why s.reader })

  pub data Reach (s : Watched) : Watched → Type 0 where
    here : Reach s s
    next : {t u : Watched} → Reach s t → Step t u → Reach s u

abbrev pub started : ℕ → Watched
started queue_max = record { reader = new_reader queue_max; made = []; opens = 0 }

-- The delivered edges and those in the queue are the ones made, less the dropped ones.
pub data Kept : List Edge → ℕ → List Edge → Type 0 where
  nothing : Kept [] 0 []
  kept :
      {es made : List Edge} {dropped : ℕ} (e : Edge)
      → Kept es dropped made
      → Kept (es ++ e ∷ []) dropped (made ++ e ∷ [])
  lost :
      {es made : List Edge} {dropped : ℕ} (e : Edge)
      → Kept es dropped made
      → Kept es (suc dropped) (made ++ e ∷ [])

-- The disconnect of an open device is not told before its loss; then, while the wait goes on with the input still
-- open, it has been told if the device is gone, and not yet after another error.
abbrev pub IsTelling : Option Loss → Bool → Bool → Type 0
IsTelling none input_open notified = (notified && input_open) ≡ false
IsTelling (some why) input_open notified = (input_open ≡ true) × (notified ≡ is_gone why)

pub record IsSound (queue_max : ℕ) (s : Watched) : Type 0 where
  pub same_max : s.reader.queue_max ≡ queue_max
  pub fits : Fits queue_max s.reader.edge_queue
  pub in_order : Kept (s.reader.delivered ++ s.reader.edge_queue) s.reader.dropped_edges s.made
  pub one_each :
      s.opens
      ≡ s.reader.disconnects
        + (if s.reader.input_open && not s.reader.disconnect_notified then 1 else 0)
  pub to_tell : IsTelling s.reader.losing s.reader.input_open s.reader.disconnect_notified
  pub waits : s.reader.backoff ≤ 10000
