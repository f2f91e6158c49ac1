-- ===== src/History/Saving.antt =====
-- pihub/history.py: no change of the history is left unsaved once a call follows it.
use pihub_remote_nrf.Prelude.{
  ℕ, suc, ◌+◌, ◌-◌, ◌≤◌, ◌<◌, ◌≡◌, refl, ap, ◌∙◌, sym, ◌⊎◌, inl, inr, true, false, List, [], ◌∷◌,
  ◌++◌, arith, length, length-append, Bool-cases,
}
use mathlib.Core.List.{append-nil, append_assoc}
use pihub_remote_nrf.History.Store.{
  Copy, HistoryStore, contents, new_store, append_right, append_all, load_copy, add_event,
  add_flow_report, change_reports, clear,
}
use pihub_remote_nrf.History.Log.{Call, event, report, cleared, changed, marks, call}
use pihub_remote_nrf.History.Writer.{
  Phase, waiting, debouncing, asleep, writing, take_up, Shared, Writes, wakes, extends_debounce,
  finds_clean, copies, written, wakes_again, Step, writer, write_fails, calls, changes, asks, Reach,
  here, next, Runs, stays, goes,
}

module _ {E R : Type 0} where
  -- What the file holds when the writer is done with what it is writing.
  abbrev pub target : Phase E R → Copy E R → Copy E R
  target (writing c) file = c
  target waiting file = file
  target debouncing file = file
  target asleep file = file

  pub record IsSaved (s : Shared E R) : Type 0 where
    -- A change is waited on: a flush is asked for or under way.
    pub attended :
        (s.store.dirty ≡ false) ⊎ (s.flush ≡ true) ⊎ (s.phase ≡ debouncing) ⊎ (0 < s.requests)
    -- What is not marked as changed, where no report changed since the last call, is what the file holds, or will
    -- hold once the write is done.
    pub durable :
        (s.store.dirty ≡ true)
        ⊎ (s.changed_since ≡ true)
        ⊎ (target s.phase s.file ≡ contents s.store)

  -- The writer's phase changes, and what the file will hold does not.
  moved :
      (s : Shared E R) (p q : Phase E R) (file : Copy E R)
      → s.phase ≡ p
      → target p s.file ≡ target q file
      → (s.store.dirty ≡ true)
        ⊎ (s.changed_since ≡ true)
        ⊎ (target s.phase s.file ≡ contents s.store)
      → (s.store.dirty ≡ true) ⊎ (s.changed_since ≡ true) ⊎ (target q file ≡ contents s.store)
  moved s p q file at same (inl d) = inl d
  moved s p q file at same (inr (inl g)) = inr (inl g)
  moved s p q file at same (inr (inr e)) =
      inr (inr (sym same ∙ ap (λ r. target r s.file) (sym at) ∙ e))

  Writes-IsSaved : {s t : Shared E R} → Writes s t → IsSaved s → IsSaved t
  Writes-IsSaved (wakes s p f) v = record {
    attended = inr (inr (inl refl));
    durable = moved s waiting debouncing s.file p refl v.durable;
  }
  Writes-IsSaved (extends_debounce s p f) v = record {
    attended = inr (inr (inl p));
    durable = v.durable;
  }
  Writes-IsSaved (finds_clean s p f) v = record {
    attended = inl f;
    durable = moved s debouncing waiting s.file p refl v.durable;
  }
  Writes-IsSaved (copies s p f) v = record { attended = inl refl; durable = inr (inr refl) }
  Writes-IsSaved (written c s p) v = record {
    attended = not_debouncing v.attended;
    durable = moved s (writing c) waiting c p refl v.durable;
  }
    where
      not_debouncing :
          (s.store.dirty ≡ false) ⊎ (s.flush ≡ true) ⊎ (s.phase ≡ debouncing) ⊎ (0 < s.requests)
          → (s.store.dirty ≡ false)
            ⊎ (s.flush ≡ true)
            ⊎ (◌≡◌ {A = Phase E R} waiting debouncing)
            ⊎ (0 < s.requests)
      not_debouncing a = ground (arith, a, p)
  Writes-IsSaved (wakes_again s p) v = record {
    attended = not_debouncing v.attended;
    durable = moved s asleep waiting s.file p refl v.durable;
  }
    where
      not_debouncing :
          (s.store.dirty ≡ false) ⊎ (s.flush ≡ true) ⊎ (s.phase ≡ debouncing) ⊎ (0 < s.requests)
          → (s.store.dirty ≡ false)
            ⊎ (s.flush ≡ true)
            ⊎ (◌≡◌ {A = Phase E R} waiting debouncing)
            ⊎ (0 < s.requests)
      not_debouncing a = ground (arith, a, p)

  call-dirty : (c : Call E R) (s : HistoryStore E R) → marks c ≡ true → (call c s).dirty ≡ true
  unfolding call add_event add_flow_report clear
  call-dirty (event e) s m = refl
  call-dirty (report r) s m = refl
  call-dirty cleared s m = refl
  call-dirty (changed change) s m = absurd (ground (arith, m))

  still_attended :
      (change seen : R → R) (s : Shared E R)
      → (s.store.dirty ≡ false) ⊎ (s.flush ≡ true) ⊎ (s.phase ≡ debouncing) ⊎ (0 < s.requests)
      → ((call (changed change) s.store).dirty ≡ false)
        ⊎ (s.flush ≡ true)
        ⊎ (take_up seen s.phase ≡ debouncing)
        ⊎ (0 < s.requests)
  unfolding call change_reports
  still_attended change seen s (inl d) = inl d
  still_attended change seen s (inr (inl f)) = inr (inl f)
  still_attended change seen s (inr (inr (inl p))) = inr (inr (inl (ap (take_up seen) p)))
  still_attended change seen s (inr (inr (inr n))) = inr (inr (inr n))

  Step-IsSaved : {s t : Shared E R} → Step s t → IsSaved s → IsSaved t
  Step-IsSaved (writer w) v = Writes-IsSaved w v
  Step-IsSaved (write_fails c s p) v = record { attended = inr (inl refl); durable = inl refl }
  Step-IsSaved (calls c s m) v = record {
    attended = inr (inr (inr (omega arith)));
    durable = inl (call-dirty c s.store m);
  }
  Step-IsSaved (changes change seen s) v = record {
    attended = still_attended change seen s v.attended;
    durable = inr (inl refl);
  }
  Step-IsSaved (asks n s p) v = record { attended = inr (inl refl); durable = v.durable }

  Reach-IsSaved : {s t : Shared E R} → IsSaved s → Reach s t → IsSaved t
  Reach-IsSaved v here = v
  Reach-IsSaved v (next r st) = Step-IsSaved st (Reach-IsSaved v r)

  -- The writer gets from here to where the file holds this copy, and nothing is marked as changed.
  abbrev pub Saves : Copy E R → Shared E R → Type 0
  Saves c s =
      (t : Shared E R) × Runs s t × (t.file ≡ c) × (contents t.store ≡ c) × (t.store.dirty ≡ false)

  first : (c : Copy E R) (s t : Shared E R) → Writes s t → Saves c t → Saves c s
  first c s t w (u, r, a, b, d) = (u, goes w r, a, b, d)

  clean :
      (s : Shared E R)
      → s.phase ≡ waiting
      → s.store.dirty ≡ false
      → s.changed_since ≡ false
      → (s.store.dirty ≡ true)
        ⊎ (s.changed_since ≡ true)
        ⊎ (target s.phase s.file ≡ contents s.store)
      → Saves (contents s.store) s
  clean s p d g (inl e) = absurd (ground arith)
  clean s p d g (inr (inl e)) = absurd (ground arith)
  clean s p d g (inr (inr e)) = (s, stays s, (λ i. target (sym p i) s.file) ∙ e, refl, d)

  debouncing-Saves :
      (s : Shared E R)
      → IsSaved s
      → s.changed_since ≡ false
      → s.phase ≡ debouncing
      → Saves (contents s.store) s
  debouncing-Saves s v g p = elim (Bool-cases s.store.dirty) [
    | inl d ↦ first (contents s.store) s _ (copies s p d) (
        first (contents s.store) _ _ (written (contents s.store) _ refl)
          (_, stays _, refl, refl, refl))
    | inr d ↦
        first (contents s.store) s _ (finds_clean s p d)
          (clean _ refl d g (moved s debouncing waiting s.file p refl v.durable))
  ]

  waiting-Saves :
      (s : Shared E R)
      → IsSaved s
      → s.changed_since ≡ false
      → s.requests ≡ 0
      → s.phase ≡ waiting
      → Saves (contents s.store) s
  waiting-Saves s v g none_left p = elim (Bool-cases s.store.dirty) [
    | inl d ↦
        (let f : s.flush ≡ true = ground (arith, v.attended) in
          first (contents s.store) s _ (wakes s p f)
            (debouncing-Saves _ (Writes-IsSaved (wakes s p f) v) g refl))
    | inr d ↦ clean s p d g v.durable
  ]

  by_phase :
      (s : Shared E R) (p : Phase E R)
      → s.phase ≡ p
      → IsSaved s
      → s.changed_since ≡ false
      → s.requests ≡ 0
      → Saves (contents s.store) s
  by_phase s waiting at v g n = waiting-Saves s v g n at
  by_phase s debouncing at v g n = debouncing-Saves s v g at
  by_phase s asleep at v g n =
      first (contents s.store) s _ (wakes_again s at)
        (waiting-Saves _ (Writes-IsSaved (wakes_again s at) v) g n refl)
  by_phase s (writing c) at v g n =
      first (contents s.store) s _ (written c s at)
        (waiting-Saves _ (Writes-IsSaved (written c s at) v) g n refl)

  -- A store that was just loaded, or is new, and its file.
  abbrev pub at_start : HistoryStore E R → Shared E R
  at_start s = record {
    store = record s { dirty = false };
    flush = false;
    requests = 0;
    phase = waiting;
    file = contents s;
    changed_since = false;
  }

  -- Whatever calls, changes of reports and writes, failed ones too, follow from the start, and however they
  -- interleave: where every caller has asked for its flush and no report has changed since the last call, the
  -- writer alone, if its writes succeed, comes to where the file holds all that the store holds, its reports as
  -- they stand, and nothing is marked as changed.
  pub history_is_saved :
      (s : HistoryStore E R) (t : Shared E R)
      → Reach (at_start s) t
      → t.changed_since ≡ false
      → t.requests ≡ 0
      → Saves (contents t.store) t
  history_is_saved s t r g n =
      by_phase t t.phase refl
        (Reach-IsSaved (record { attended = inl refl; durable = inr (inr refl) }) r) g n

module _ {A : Type 0} where
  append_right-room : (n : ℕ) (q : List A) (a : A) → length q < n → append_right n q a ≡ q ++ a ∷ []
  unfolding append_right
  append_right-room n q a h = let none_over : suc (length q) - n ≡ 0 = omega arith in rw none_over

  pub append_all-room :
      (n : ℕ) (q xs : List A) → length q + length xs ≤ n → append_all n q xs ≡ q ++ xs
  unfolding append_all
  append_all-room n q [] h = sym (append-nil q)
  append_all-room n q (x ∷ xs) h = rw (append_right-room n q x (omega arith)) (
      append_all-room n (q ++ x ∷ []) xs (omega (arith, length-append q (x ∷ [])))
      ∙ append_assoc q (x ∷ []) xs)

-- Loading a file that was saved by a store of the same sizes gives that store's contents.
pub load_copy-contents :
    {E R : Type 0} (s : HistoryStore E R)
    → length s.events ≤ s.max_events
    → length s.flow_reports ≤ s.max_flow_reports
    → contents (load_copy (contents s) (new_store s.max_events s.max_flow_reports)) ≡ contents s
unfolding load_copy
load_copy-contents s e r = λ i. record {
  events = append_all-room s.max_events [] s.events (omega arith) i;
  flow_reports = append_all-room s.max_flow_reports [] s.flow_reports (omega arith) i;
}
