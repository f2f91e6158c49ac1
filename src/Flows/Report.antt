-- ===== src/Flows/Report.antt =====
-- What a flow of pihub/flows.py comes to, step by step: its failures and its report.
use mathlib.Core.List.{append-nil, append_assoc}
use pihub_remote_nrf.Prelude.{
  ℕ, suc, String, ◌≡◌, refl, ap, ◌∙◌, inl, inr, Option, none, some, List, [], ◌∷◌, ◌++◌, map, arith,
  length, length-append, All, Bool-cases, Option-cases, if◌then◌else◌,
}
use pihub_remote_nrf.Flows.Actions.{World, Outcome, run_action}
use pihub_remote_nrf.Flows.Steps.{
  Snapshot, StepSpec, StepReport, Failure, Started, Context, Run, ended, broke, waits, ok, failed,
  skipped, dispatched, fresh, new_report, finish, settle_outcome, failure, step_run,
  dispatch_settle, skips, End, succeeds, fails, never, breaks, await_end, settle_error, awaited,
  step, run_steps, update_at, settle_one, settle_each, settle_background, run_flow,
}

-- What a step does in a flow with this snapshot, in these worlds: it is skipped, started in the
-- background, or awaited to its end.
pub data Part : Type 0 where
  skip : Part
  spawn : Outcome → Part
  await : End → Part

unfoldable pub part : Snapshot → (String → World) → StepSpec → Part
part snap worlds s =
    if skips s snap
    then skip
    else if s.background
    then spawn (run_action s.run (worlds s.step_id))
    else await (await_end s.limit (run_action s.run (worlds s.step_id)))

-- The report of a step when the flow has gone past it.
abbrev first_report : StepSpec → Part → StepReport
first_report s skip = finish skipped none (new_report s)
first_report s (spawn o) = finish dispatched none (new_report s)
first_report s (await succeeds) = finish ok none (new_report s)
first_report s (await (fails e)) = finish failed (some e) (new_report s)
first_report s (await never) = new_report s
first_report s (await breaks) = new_report s

settled : Option String → StepReport → StepReport
settled none = settle_outcome ok none
settled (some e) = settle_outcome failed (some e)

-- The report of a step when the flow has ended.
unfoldable pub final_report : StepSpec → Part → StepReport
unfolding settled
final_report s (spawn o) = settled (settle_error s.limit o) (finish dispatched none (new_report s))
final_report s p = first_report s p

abbrev error_failure : StepSpec → Option String → List Failure
error_failure s none = []
error_failure s (some e) = failure s dispatch_settle e ∷ []

-- The failures of the awaited steps, and of the background steps, in the steps' order.
unfoldable pub await_failures : Snapshot → (String → World) → List StepSpec → List Failure
await_failures snap worlds [] = []
await_failures snap worlds (s ∷ rest) =
    (elim (part snap worlds s) [ await (fails e) ↦ failure s step_run e ∷ [] | _ ↦ [] ])
    ++ await_failures snap worlds rest

unfoldable pub settle_failures : Snapshot → (String → World) → List StepSpec → List Failure
settle_failures snap worlds [] = []
settle_failures snap worlds (s ∷ rest) =
    (elim (part snap worlds s) [ spawn o ↦ error_failure s (settle_error s.limit o) | _ ↦ [] ])
    ++ settle_failures snap worlds rest

-- The step does not keep the flow for ever and does not raise out of it.
abbrev pub Passes : Part → Type 0
Passes (await never) = ⊥
Passes (await breaks) = ⊥
Passes _ = Unit

started : ℕ → StepSpec → Part → List Started
started n s (spawn o) = record { spec = s; outcome = o; report_index = n } ∷ []
started n s _ = []

unfoldable pub all_started : Snapshot → (String → World) → ℕ → List StepSpec → List Started
unfolding started
all_started snap worlds n [] = []
all_started snap worlds n (s ∷ rest) =
    started n s (part snap worlds s) ++ all_started snap worlds (suc n) rest

length-snoc : {A : Type 0} (xs : List A) (x : A) → length (xs ++ x ∷ []) ≡ suc (length xs)
length-snoc xs x = omega (arith, length-append xs (x ∷ []))

module _ (snap : Snapshot) (worlds : String → World) where
  await_failure : StepSpec → Part → List Failure
  await_failure s p = elim p [ await (fails e) ↦ failure s step_run e ∷ [] | _ ↦ [] ]

  -- One step of the flow, by its part in it.
  after : StepSpec → Part → Context → Context
  unfolding started await_failure
  after s p c = record {
    failures = c.failures ++ await_failure s p;
    background = c.background ++ started (length c.report) s p;
    report = c.report ++ first_report s p ∷ [];
  }

  awaited_lem :
      (s : StepSpec) (e : End) (c : Context)
      → Passes (await e)
      → awaited s e c ≡ ended (after s (await e) c)
  unfolding awaited after started await_failure
  awaited_lem s succeeds c h = simp (append-nil)
  awaited_lem s (fails e) c h = simp (append-nil)
  awaited_lem s never c h = elim h [ ]
  awaited_lem s breaks c h = elim h [ ]

  step_lem :
      (s : StepSpec) (c : Context)
      → Passes (part snap worlds s)
      → step snap (worlds s.step_id) s c ≡ ended (after s (part snap worlds s) c)
  unfolding step part after started await_failure
  step_lem s c = elim (Bool-cases (skips s snap)) [
    | inl e ↦ rw e (λ h. simp (append-nil))
    | inr e ↦ elim (Bool-cases s.background) [
      | inl b ↦ rw e (rw b (λ h. simp (append-nil)))
      | inr b ↦ rw e (simp (b) (awaited_lem s _ c))
    ]
  ]

  unfoldable pub first_reports : List StepSpec → List StepReport
  first_reports steps = map (λ s. first_report s (part snap worlds s)) steps

  unfoldable pub after_all : List StepSpec → Context → Context
  unfolding first_reports
  after_all steps c = record {
    failures = c.failures ++ await_failures snap worlds steps;
    background = c.background ++ all_started snap worlds (length c.report) steps;
    report = c.report ++ first_reports steps;
  }

  after_all-after :
      (s : StepSpec) (steps : List StepSpec) (c : Context)
      → after_all steps (after s (part snap worlds s) c) ≡ after_all (s ∷ steps) c
  unfolding after_all after first_reports await_failure await_failures all_started
  after_all-after s steps c =
      simp (append_assoc, length-snoc c.report (first_report s (part snap worlds s))) refl

  unfoldable pub then_steps : List StepSpec → Run → Run
  unfolding run_steps
  then_steps steps r = elim r [
    | waits ↦ waits
    | broke c ↦ broke c
    | ended c ↦ run_steps snap worlds steps c
  ]

  pub run_steps_lem :
      (steps : List StepSpec) (c : Context)
      → All (λ s. Passes (part snap worlds s)) steps
      → run_steps snap worlds steps c ≡ ended (after_all steps c)
  unfolding run_steps then_steps after_all await_failures all_started first_reports
  run_steps_lem [] c h = simp (append-nil)
  run_steps_lem (s ∷ steps) c (p, h) =
      ap (then_steps steps) (step_lem s c p)
      ∙ run_steps_lem steps (after s (part snap worlds s) c) h
      ∙ ap ended (after_all-after s steps c)

-- The flow's context with these failures, background steps and report.
abbrev pub context : List Failure → List Started → List StepReport → Context
context fs bs rs = record { failures = fs; background = bs; report = rs }

update_at-length :
    (f : StepReport → StepReport) (pre : List StepReport) (r : StepReport) (rest : List StepReport)
    → update_at (length pre) f (pre ++ r ∷ rest) ≡ pre ++ f r ∷ rest
unfolding update_at
update_at-length f [] r rest = refl
update_at-length f (x ∷ pre) r rest = ap (λ rs. x ∷ rs) (update_at-length f pre r rest)

settle_failure : StepSpec → Part → List Failure
settle_failure s p = elim p [ spawn o ↦ error_failure s (settle_error s.limit o) | _ ↦ [] ]

module _ (s : StepSpec) (pre rest : List StepReport) (fs : List Failure) (bs : List Started) where
  settle_one_lem :
      (o : Outcome)
      → settle_one
          (record { spec = s; outcome = o; report_index = length pre })
          (context fs bs (pre ++ first_report s (spawn o) ∷ rest))
        ≡ context (fs ++ settle_failure s (spawn o)) bs (pre ++ final_report s (spawn o) ∷ rest)
  unfolding settle_one settle_failure final_report settled
  settle_one_lem o = elim (Option-cases (settle_error s.limit o)) [
    | inl e ↦ simp (settle_one, e, update_at-length, append-nil)
    | inr (x, e) ↦ simp (settle_one, e, update_at-length)
  ]

  settle_part :
      (p : Part) (more : List Started)
      → settle_each
          (started (length pre) s p ++ more)
          (context fs bs (pre ++ first_report s p ∷ rest))
        ≡ settle_each more (context (fs ++ settle_failure s p) bs (pre ++ final_report s p ∷ rest))
  unfolding started settle_each settle_failure final_report
  settle_part skip more = simp (append-nil)
  settle_part (spawn o) more = ap (settle_each more) (settle_one_lem o)
  settle_part (await e) more = simp (append-nil)

module _ (snap : Snapshot) (worlds : String → World) where
  unfoldable pub final_reports : List StepSpec → List StepReport
  final_reports steps = map (λ s. final_report s (part snap worlds s)) steps

  settle_each_lem :
      (steps : List StepSpec) (pre : List StepReport) (fs : List Failure) (bs : List Started)
      → settle_each
          (all_started snap worlds (length pre) steps)
          (context fs bs (pre ++ first_reports snap worlds steps))
        ≡ context (fs ++ settle_failures snap worlds steps) bs (pre ++ final_reports steps)
  unfolding settle_each all_started first_reports final_reports settle_failures settle_failure
  settle_each_lem [] pre fs bs = simp (append-nil)
  settle_each_lem (s ∷ steps) pre fs bs =
      settle_part s pre (first_reports snap worlds steps) fs bs (part snap worlds s) _
      ∙ simp (append_assoc, length-snoc) at
          (settle_each_lem steps (pre ++ final_report s (part snap worlds s) ∷ [])
            (fs ++ settle_failure s (part snap worlds s)) bs)

  -- Where no step keeps the flow for ever or raises out of it, the flow ends: its failures are those of
  -- the awaited steps in order and then those of the background steps in order, and each step has
  -- one report, in order, with the status of its own end (and for a background step its outcome).
  pub run_flow_lem :
      (steps : List StepSpec)
      → All (λ s. Passes (part snap worlds s)) steps
      → run_flow snap worlds steps
        ≡ ended (
            context
              (await_failures snap worlds steps ++ settle_failures snap worlds steps)
              (all_started snap worlds 0 steps)
              (map (λ s. final_report s (part snap worlds s)) steps))
  unfolding run_flow settle_background final_reports after_all
  run_flow_lem steps h =
      ap (λ r. elim r [ waits ↦ waits | broke c ↦ broke c | ended c ↦ ended (settle_background c) ])
        (run_steps_lem snap worlds steps fresh h)
      ∙ ap ended (settle_each_lem steps [] _ _)
