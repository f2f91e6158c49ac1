-- ===== src/History/Log.antt =====
-- pihub/history.py: the store as a window on an unbounded log, the newest entries first.
use pihub_remote_nrf.Prelude.{
  ℕ, zero, suc, ◌≤◌, ◌≡◌, refl, sym, ap, ◌∙◌, Bool, true, false, List, [], ◌∷◌, arith, take, map,
}
use pihub_remote_nrf.History.Store.{
  Copy, HistoryStore, new_store, contents, min, max, append_left, add_event, add_flow_report,
  change_reports, clear, list_events,
}

-- What changes the store: a call on it, or a change of a report that it holds.
pub data Call (E R : Type 0) : Type 0 where
  event : E → Call E R
  report : R → Call E R
  cleared : Call E R
  changed : (R → R) → Call E R

-- The calls on the store mark it as changed and ask for a flush.
abbrev pub marks : {E R : Type 0} → Call E R → Bool
marks (event e) = true
marks (report r) = true
marks cleared = true
marks (changed change) = false

module _ {A : Type 0} where
  take-take : (n m : ℕ) (xs : List A) → n ≤ m → take n (take m xs) ≡ take n xs
  take-take zero m xs h = refl
  take-take (suc n) zero xs h = absurd (omega arith)
  take-take (suc n) (suc m) [] h = refl
  take-take (suc n) (suc m) (x ∷ xs) h = ap (λ ys. x ∷ ys) (take-take n m xs (omega arith))

  append_left-take : (n : ℕ) (a : A) (xs : List A) → append_left n a (take n xs) ≡ take n (a ∷ xs)
  unfolding append_left
  append_left-take zero a xs = refl
  append_left-take (suc n) a xs = ap (λ ys. a ∷ ys) (take-take n (suc n) xs (omega arith))

  append_left-window :
      (k n : ℕ) (a : A) (q log : List A)
      → k ≡ n
      → q ≡ take n log
      → append_left k a q ≡ take n (a ∷ log)
  append_left-window k n a q log size same =
      (λ i. append_left (size i) a (same i)) ∙ append_left-take n a log

  take-map : {B : Type 0} (f : A → B) (n : ℕ) (xs : List A) → take n (map f xs) ≡ map f (take n xs)
  take-map f zero xs = refl
  take-map f (suc n) [] = refl
  take-map f (suc n) (x ∷ xs) = ap (λ ys. f x ∷ ys) (take-map f n xs)

  take-nil : (n : ℕ) → ◌≡◌ {A = List A} [] (take n [])
  take-nil zero = refl
  take-nil (suc n) = refl

module _ {E R : Type 0} where
  -- The calls, on the store and on a log without bounds.
  unfoldable pub call : Call E R → HistoryStore E R → HistoryStore E R
  unfolding add_event add_flow_report clear change_reports
  call (event e) s = add_event e s
  call (report r) s = add_flow_report r s
  call cleared s = clear s
  call (changed change) s = change_reports change s

  unfoldable pub run : List (Call E R) → HistoryStore E R → HistoryStore E R
  unfolding call
  run [] s = s
  run (c ∷ cs) s = run cs (call c s)

  unfoldable pub replay : List (Call E R) → Copy E R → Copy E R
  replay [] log = log
  replay (event e ∷ cs) log = replay cs (record log { events = e ∷ log.events })
  replay (report r ∷ cs) log = replay cs (record log { flow_reports = r ∷ log.flow_reports })
  replay (cleared ∷ cs) log = replay cs (record { events = []; flow_reports = [] })
  replay (changed change ∷ cs) log =
      replay cs (record log { flow_reports = map change log.flow_reports })

  -- The newest entries of a log.
  abbrev pub window : ℕ → ℕ → Copy E R → Copy E R
  window m n log = record { events = take m log.events; flow_reports = take n log.flow_reports }

  -- The store shows a window on the log.
  pub record Shows (m n : ℕ) (s : HistoryStore E R) (log : Copy E R) : Type 0 where
    pub of_events : s.max_events ≡ m
    pub of_reports : s.max_flow_reports ≡ n
    pub same : contents s ≡ window m n log

  run-Shows :
      (m n : ℕ) (cs : List (Call E R)) (s : HistoryStore E R) (log : Copy E R)
      → Shows m n s log
      → Shows m n (run cs s) (replay cs log)
  unfolding run replay call add_event add_flow_report clear change_reports
  run-Shows m n [] s log h = h
  run-Shows m n (event e ∷ cs) s log h = run-Shows m n cs _ _ (record {
    of_events = h.of_events;
    of_reports = h.of_reports;
    same = λ i. record {
      events =
          append_left-window s.max_events m e s.events log.events h.of_events
            (ap (λ (c : Copy E R). c.events) h.same) i;
      flow_reports = (h.same i).flow_reports;
    };
  })
  run-Shows m n (report r ∷ cs) s log h = run-Shows m n cs _ _ (record {
    of_events = h.of_events;
    of_reports = h.of_reports;
    same = λ i. record {
      events = (h.same i).events;
      flow_reports =
          append_left-window s.max_flow_reports n r s.flow_reports log.flow_reports h.of_reports
            (ap (λ (c : Copy E R). c.flow_reports) h.same) i;
    };
  })
  run-Shows m n (cleared ∷ cs) s log h = run-Shows m n cs _ _ (record {
    of_events = h.of_events;
    of_reports = h.of_reports;
    same = λ i. record { events = take-nil m i; flow_reports = take-nil n i };
  })
  run-Shows m n (changed change ∷ cs) s log h = run-Shows m n cs _ _ (record {
    of_events = h.of_events;
    of_reports = h.of_reports;
    same = λ i. record {
      events = (h.same i).events;
      flow_reports =
          (ap (λ (c : Copy E R). map change c.flow_reports) h.same
              ∙ sym (take-map change n log.flow_reports))
            i;
    };
  })

  abbrev empty_log : Copy E R
  empty_log = record { events = []; flow_reports = [] }

  new-Shows : (m n : ℕ) → Shows m n (new_store m n) empty_log
  new-Shows m n = record {
    of_events = refl;
    of_reports = refl;
    same = λ i. record { events = take-nil m i; flow_reports = take-nil n i };
  }

  -- After any calls on a new store that keeps m events, at least 200 (the default), and n reports, and any changes
  -- of its reports, it holds the newest m events and the newest n reports added since the last clear, the newest
  -- first and as they stand after the changes, and list_events gives the newest of all events since then, at least one and at most 200.
  pub run-replay :
      (m n : ℕ) (cs : List (Call E R)) (limit : ℕ)
      → 200 ≤ m
      → (contents (run cs (new_store m n)) ≡ window m n (replay cs empty_log))
        × (list_events limit (run cs (new_store m n))
            ≡ take (max 1 (min limit 200)) (replay cs empty_log).events)
  unfolding list_events
  run-replay m n cs limit wide =
      let h = run-Shows m n cs (new_store m n) empty_log (new-Shows m n) in
      (
        h.same,
        ap (λ (c : Copy E R). take (max 1 (min limit 200)) c.events) h.same
            ∙ take-take (max 1 (min limit 200)) m (replay cs empty_log).events (ground arith),
      )
