-- ===== src/Flows/Breaks.antt =====
-- pihub/flows.py, FlowContext.step: the TimeoutError of a step that has no limit.
use pihub_remote_nrf.Prelude.{String, ◌≡◌, refl, ap, ◌∙◌, false, List, [], ◌∷◌, ◌++◌, All}
use pihub_remote_nrf.Flows.Actions.{World, raised_timeout, run_action}
use pihub_remote_nrf.Flows.Steps.{
  Snapshot, StepSpec, no_limit, Context, Run, ended, broke, waits, fresh, new_report, skips,
  await_end, awaited, step, run_steps, run_flow, settle_background,
}
use pihub_remote_nrf.Flows.Report.{
  part, Passes, await_failures, all_started, first_reports, after_all, then_steps, context,
  run_steps_lem,
}

module _ (snap : Snapshot) (worlds : String → World) where
  then_steps-append :
      (steps rest : List StepSpec) (r : Run)
      → then_steps snap worlds (steps ++ rest) r
        ≡ then_steps snap worlds rest (then_steps snap worlds steps r)
  unfolding then_steps run_steps
  then_steps-append steps rest waits = refl
  then_steps-append steps rest (broke c) = refl
  then_steps-append [] rest (ended c) = refl
  then_steps-append (s ∷ steps) rest (ended c) =
      then_steps-append steps rest (step snap (worlds s.step_id) s c)

  step-breaks :
      (s : StepSpec) (c : Context)
      → skips s snap ≡ false
      → s.background ≡ false
      → s.limit ≡ no_limit
      → run_action s.run (worlds s.step_id) ≡ raised_timeout
      → step snap (worlds s.step_id) s c
        ≡ broke (record c { report = c.report ++ new_report s ∷ [] })
  unfolding step awaited await_end
  step-breaks s c runs waited limit out = simp (runs, waited, limit, out)

  -- A step that is awaited without a limit and whose action raises TimeoutError ends the flow by an
  -- error that is no step failure: the background steps are not settled, the step's report stays
  -- pending, and no later step is reported or run.
  pub timeout_without_limit-breaks :
      (steps : List StepSpec) (s : StepSpec) (rest : List StepSpec)
      → All (λ t. Passes (part snap worlds t)) steps
      → skips s snap ≡ false
      → s.background ≡ false
      → s.limit ≡ no_limit
      → run_action s.run (worlds s.step_id) ≡ raised_timeout
      → run_flow snap worlds (steps ++ s ∷ rest)
        ≡ broke (
            context
              (await_failures snap worlds steps)
              (all_started snap worlds 0 steps)
              (first_reports snap worlds steps ++ new_report s ∷ []))
  unfolding run_flow then_steps run_steps after_all
  timeout_without_limit-breaks steps s rest passes runs waited limit out =
      ap (λ r. elim r [ waits ↦ waits | broke c ↦ broke c | ended c ↦ ended (settle_background c) ])
        (then_steps-append steps (s ∷ rest) (ended fresh)
          ∙ ap (then_steps snap worlds (s ∷ rest)) (run_steps_lem snap worlds steps fresh passes)
          ∙ ap (then_steps snap worlds rest) (step-breaks s _ runs waited limit out))
