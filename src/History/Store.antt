-- ===== src/History/Store.antt =====
-- pihub/history.py, HistoryStore: its bounded deques and the calls on them. `E` is an event and `R` a
-- flow report, whose steps and result change after it was added.
use pihub_remote_nrf.Prelude.{
  ℕ, suc, ◌-◌, Bool, true, false, List, [], ◌∷◌, ◌++◌, ltb, length, take, drop, map, if◌then◌else◌,
}

-- What is saved: the events and the reports, the newest first.
pub record Copy (E R : Type 0) : Type 0 where
  pub events : List E
  pub flow_reports : List R

pub record HistoryStore (E R : Type 0) : Type 0 where
  pub events : List E
  pub flow_reports : List R
  pub max_events : ℕ
  pub max_flow_reports : ℕ
  pub dirty : Bool

abbrev pub min : ℕ → ℕ → ℕ
min a b = if ltb a b then a else b

abbrev pub max : ℕ → ℕ → ℕ
max a b = if ltb a b then b else a

module _ {E R : Type 0} where
  -- __init__
  abbrev pub new_store : ℕ → ℕ → HistoryStore E R
  new_store max_events max_flow_reports = record {
    events = [];
    flow_reports = [];
    max_events = max_events;
    max_flow_reports = max_flow_reports;
    dirty = false;
  }

  -- list(self._events), list(self._flow_reports)
  abbrev pub contents : HistoryStore E R → Copy E R
  contents s = record { events = s.events; flow_reports = s.flow_reports }

module _ {A : Type 0} where
  -- deque(maxlen=n).appendleft and .append
  unfoldable pub append_left : ℕ → A → List A → List A
  append_left maxlen a q = take maxlen (a ∷ q)

  unfoldable pub append_right : ℕ → List A → A → List A
  append_right maxlen q a = drop (suc (length q) - maxlen) (q ++ a ∷ [])

  -- A loop of append over items.
  unfoldable pub append_all : ℕ → List A → List A → List A
  unfolding append_right
  append_all maxlen q [] = q
  append_all maxlen q (a ∷ rest) = append_all maxlen (append_right maxlen q a) rest

module _ {E R : Type 0} where
  unfoldable pub add_event : E → HistoryStore E R → HistoryStore E R
  unfolding append_left
  add_event event s = record s { events = append_left s.max_events event s.events; dirty = true }

  unfoldable pub add_flow_report : R → HistoryStore E R → HistoryStore E R
  unfolding append_left
  add_flow_report report s = record s {
    flow_reports = append_left s.max_flow_reports report s.flow_reports;
    dirty = true;
  }

  -- A report that was added is changed where it stands (FlowRunReport.add_step and finish, FlowStepReport.finish and
  -- settle_outcome): `change` changes that report and leaves the others, and the store is not marked.
  unfoldable pub change_reports : (R → R) → HistoryStore E R → HistoryStore E R
  change_reports change s = record s { flow_reports = map change s.flow_reports }

  unfoldable pub clear : HistoryStore E R → HistoryStore E R
  clear s = record s { events = []; flow_reports = []; dirty = true }

  -- load, of a file that could be read
  unfoldable pub load_copy : Copy E R → HistoryStore E R → HistoryStore E R
  unfolding append_all
  load_copy c s = record s {
    events = append_all s.max_events [] c.events;
    flow_reports = append_all s.max_flow_reports [] c.flow_reports;
    dirty = false;
  }

  -- limit = max(1, min(int(limit), 200))
  unfoldable pub list_events : ℕ → HistoryStore E R → List E
  list_events limit s = take (max 1 (min limit 200)) s.events

  unfoldable pub list_flow_reports : ℕ → HistoryStore E R → List R
  list_flow_reports limit s = take (max 1 (min limit 100)) s.flow_reports
