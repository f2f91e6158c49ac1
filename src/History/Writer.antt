-- ===== src/History/Writer.antt =====
-- pihub/history.py: the writer thread (_writer_loop, _write_if_dirty) beside the calls of other threads.
-- A call changes the store under its lock and asks for a flush after it (_request_flush), so
-- that another thread may run in between. A report may change at any time, which neither marks the store nor asks for
-- a flush. The delays and the log lines are not modelled, nor is
-- close, which writes once more at exit.
use pihub_remote_nrf.Prelude.{ℕ, suc, ◌≡◌, Bool, true, false, map}
use pihub_remote_nrf.History.Store.{Copy, HistoryStore, contents}
use pihub_remote_nrf.History.Log.{Call, changed, marks, call}

-- Where the writer is: at _flush_evt.wait, in the debounce loop, writing a copy, or asleep after
-- a write that failed.
pub data Phase (E R : Type 0) : Type 0 where
  waiting debouncing asleep : Phase E R
  writing : Copy E R → Phase E R

pub record Shared (E R : Type 0) : Type 0 where
  pub store : HistoryStore E R
  -- `_flush_evt`
  pub flush : Bool
  -- The calls that have changed the store and have not asked for a flush yet.
  pub requests : ℕ
  pub phase : Phase E R
  -- What the file holds.
  pub file : Copy E R
  -- Whether a report has changed since the last call, for the theorems.
  pub changed_since : Bool

-- A change of a report, as the copy being written takes it: it holds the reports themselves, and their text is built one
-- after the other.
abbrev pub take_up : {E R : Type 0} → (R → R) → Phase E R → Phase E R
take_up seen (writing c) = writing (record c { flow_reports = map seen c.flow_reports })
take_up seen waiting = waiting
take_up seen debouncing = debouncing
take_up seen asleep = asleep

module _ {E R : Type 0} where
  -- A step of the writer thread.
  pub data Writes : Shared E R → Shared E R → Type 0 where
    wakes :
        (s : Shared E R)
        → s.phase ≡ waiting
        → s.flush ≡ true
        → Writes s (record s { phase = debouncing; flush = false })
    extends_debounce :
        (s : Shared E R)
        → s.phase ≡ debouncing
        → s.flush ≡ true
        → Writes s (record s { flush = false })
    finds_clean :
        (s : Shared E R)
        → s.phase ≡ debouncing
        → s.store.dirty ≡ false
        → Writes s (record s { phase = waiting })
    copies :
        (s : Shared E R)
        → s.phase ≡ debouncing
        → s.store.dirty ≡ true
        → Writes s (record s {
          phase = writing (contents s.store);
          store = record s.store { dirty = false };
        })
    written :
        (c : Copy E R) (s : Shared E R)
        → s.phase ≡ writing c
        → Writes s (record s { phase = waiting; file = c })
    wakes_again : (s : Shared E R) → s.phase ≡ asleep → Writes s (record s { phase = waiting })

  -- A step of any thread; a write may fail.
  pub data Step : Shared E R → Shared E R → Type 0 where
    writer : {s t : Shared E R} → Writes s t → Step s t
    write_fails :
        (c : Copy E R) (s : Shared E R)
        → s.phase ≡ writing c
        → Step s
            (record s { phase = asleep; store = record s.store { dirty = true }; flush = true })
    calls :
        (c : Call E R) (s : Shared E R)
        → marks c ≡ true
        → Step s
            (record s { store = call c s.store; requests = suc s.requests; changed_since = false })
    -- `change` is what happens to the reports, `seen` what of it comes before their text is built.
    changes :
        (change seen : R → R) (s : Shared E R)
        → Step s (record s {
          store = call (changed change) s.store;
          phase = take_up seen s.phase;
          changed_since = true;
        })
    asks :
        (n : ℕ) (s : Shared E R)
        → s.requests ≡ suc n
        → Step s (record s { requests = n; flush = true })

  pub data Reach (s : Shared E R) : Shared E R → Type 0 where
    here : Reach s s
    next : {t u : Shared E R} → Reach s t → Step t u → Reach s u

  -- The writer alone, with writes that succeed.
  pub data Runs : Shared E R → Shared E R → Type 0 where
    stays : (s : Shared E R) → Runs s s
    goes : {s t u : Shared E R} → Writes s t → Runs t u → Runs s u
