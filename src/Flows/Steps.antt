-- ===== src/Flows/Steps.antt =====
-- pihub/flows.py, FlowContext: steps, conditions, background steps and how they settle; and the
-- step reports of pihub/history.py (without their times). What becomes of the whole flow is
-- a `Run`.
use Prim.Native.String.{◌++◌ as str_append}
use pihub_remote_nrf.Prelude.{
  ℕ, zero, suc, String, Bool, false, not, Option, none, some, List, [], ◌∷◌, ◌++◌, ◌==◌, ◌&&◌, ◌||◌,
  length, if◌then◌else◌,
}
use pihub_remote_nrf.Flows.Actions.{
  World, Action, Outcome, completed, raised, raised_timeout, late, run_action,
}

-- FlowRunner._snapshot
pub record Snapshot : Type 0 where
  pub tv_is_on : Bool
  pub tv_is_frame : Bool
  pub speaker_source : String
  pub speaker_is_multiroom_guest : Bool
  pub speaker_is_multiroom_host : Bool

pub data Condition : Type 0 where
  tv_is_on tv_is_off frame_tv_is_off speaker_is_on_listen_source : Condition
  speaker_is_in_multiroom speaker_should_stop : Condition

-- source in LISTEN_SOURCES
abbrev pub is_listen_source : String → Bool
is_listen_source source = source == "wifi" || source == "airplay" || source == "multiroom-secondary"

-- _CONDITIONS
unfoldable pub holds : Condition → Snapshot → Bool
holds tv_is_on snap = snap.tv_is_on
holds tv_is_off snap = not snap.tv_is_on
holds frame_tv_is_off snap = snap.tv_is_frame && not snap.tv_is_on
holds speaker_is_on_listen_source snap = is_listen_source snap.speaker_source
holds speaker_is_in_multiroom snap =
    is_listen_source snap.speaker_source
    && (snap.speaker_is_multiroom_guest || snap.speaker_is_multiroom_host)
holds speaker_should_stop snap =
    is_listen_source snap.speaker_source && not snap.speaker_is_multiroom_guest

-- The limit on a step: none, or its timeout_s with the text that an error shows.
pub data Limit : Type 0 where
  no_limit : Limit
  seconds : String → Limit

pub record StepSpec : Type 0 where
  pub step_id : String
  pub domain : String
  pub action : String
  pub run : Action
  pub when : Option Condition
  pub limit : Limit
  pub background : Bool

pub data Status : Type 0 where
  pending skipped dispatched ok failed : Status

-- FlowStepReport, with the error of its end and of its outcome.
pub record StepReport : Type 0 where
  pub step_id : String
  pub domain : String
  pub action : String
  pub in_background : Bool
  pub status : Status
  pub error : Option String
  pub outcome_status : Option Status
  pub outcome_error : Option String

pub data Phase : Type 0 where
  step_run dispatch_settle : Phase

pub record Failure : Type 0 where
  pub step_id : String
  pub domain : String
  pub action : String
  pub phase : Phase
  pub error : String

-- A background step that was started: its step, how its task ends, and its report's place.
pub record Started : Type 0 where
  pub spec : StepSpec
  pub outcome : Outcome
  pub report_index : ℕ

pub record Context : Type 0 where
  pub failures : List Failure
  pub background : List Started
  pub report : List StepReport

abbrev pub fresh : Context
fresh = record { failures = []; background = []; report = [] }

-- add_step
abbrev pub new_report : StepSpec → StepReport
new_report s = record {
  step_id = s.step_id;
  domain = s.domain;
  action = s.action;
  in_background = s.background;
  status = pending;
  error = none;
  outcome_status = none;
  outcome_error = none;
}

-- finish
abbrev pub finish : Status → Option String → StepReport → StepReport
finish status error r = record r { status = status; error = error }

-- settle_outcome
abbrev pub settle_outcome : Status → Option String → StepReport → StepReport
settle_outcome status error r = record r { outcome_status = some status; outcome_error = error }

abbrev pub failure : StepSpec → Phase → String → Failure
failure s phase error = record {
  step_id = s.step_id;
  domain = s.domain;
  action = s.action;
  phase = phase;
  error = error;
}

unfoldable pub skips : StepSpec → Snapshot → Bool
unfolding holds
skips s snap = elim s.when [ none ↦ false | some c ↦ not (holds c snap) ]

-- f"timeout:{timeout_s:g}s"
abbrev pub timeout_error : String → String
timeout_error t = str_append "timeout:" (str_append t "s")

-- An awaited step's end: it succeeds, fails with an error, never comes, or raises out of `step`:
-- where a step with no limit raises TimeoutError, formatting its limit is a TypeError.
pub data End : Type 0 where
  succeeds : End
  fails : String → End
  never : End
  breaks : End

unfoldable pub await_end : Limit → Outcome → End
await_end limit completed = succeeds
await_end limit (raised e) = fails e
await_end no_limit raised_timeout = breaks
await_end no_limit late = never
await_end (seconds t) raised_timeout = fails (timeout_error t)
await_end (seconds t) late = fails (timeout_error t)

abbrev pub settle_timeout : Limit → String
settle_timeout no_limit = "dispatch_settle_timeout:10s"
settle_timeout (seconds t) = timeout_error t

-- What settle_background finds of a task; one with no limit of its own is cancelled after 10 s.
unfoldable pub settle_error : Limit → Outcome → Option String
settle_error limit completed = none
settle_error limit (raised e) = some e
settle_error limit raised_timeout = some (settle_timeout limit)
settle_error limit late = some (settle_timeout limit)

-- How far a flow came: to its end, out of it by an error that is no step's failure, or to a step
-- that it waits in for ever.
pub data Run : Type 0 where
  ended : Context → Run
  broke : Context → Run
  waits : Run

unfoldable pub awaited : StepSpec → End → Context → Run
awaited s succeeds c = ended (record c { report = c.report ++ finish ok none (new_report s) ∷ [] })
awaited s (fails e) c = ended (record c {
  failures = c.failures ++ failure s step_run e ∷ [];
  report = c.report ++ finish failed (some e) (new_report s) ∷ [];
})
awaited s never c = waits
awaited s breaks c = broke (record c { report = c.report ++ new_report s ∷ [] })

-- ctx.step, in the world that the step's action finds.
unfoldable pub step : Snapshot → World → StepSpec → Context → Run
unfolding awaited skips await_end
step snap w s c =
    if skips s snap
    then ended (record c { report = c.report ++ finish skipped none (new_report s) ∷ [] })
    else if s.background
    then ended (record c {
      background =
          c.background
          ++ record { spec = s; outcome = run_action s.run w; report_index = length c.report } ∷ [];
      report = c.report ++ finish dispatched none (new_report s) ∷ [];
    })
    else awaited s (await_end s.limit (run_action s.run w)) c

-- The steps of a flow in order; `worlds` gives the world that each step's action finds.
unfoldable pub run_steps : Snapshot → (String → World) → List StepSpec → Context → Run
unfolding step
run_steps snap worlds [] c = ended c
run_steps snap worlds (s ∷ rest) c = elim (step snap (worlds s.step_id) s c) [
  | waits ↦ waits
  | broke c' ↦ broke c'
  | ended c' ↦ run_steps snap worlds rest c'
]

-- Change the report at a place.
unfoldable pub update_at : ℕ → (StepReport → StepReport) → List StepReport → List StepReport
update_at n f [] = []
update_at zero f (r ∷ rs) = f r ∷ rs
update_at (suc n) f (r ∷ rs) = r ∷ update_at n f rs

unfoldable pub settle_one : Started → Context → Context
unfolding update_at settle_error
settle_one b c = elim (settle_error b.spec.limit b.outcome) [
  | none ↦ record c { report = update_at b.report_index (settle_outcome ok none) c.report }
  | some e ↦ record c {
    report = update_at b.report_index (settle_outcome failed (some e)) c.report;
    failures = c.failures ++ failure b.spec dispatch_settle e ∷ [];
  }
]

unfoldable pub settle_each : List Started → Context → Context
unfolding settle_one
settle_each [] c = c
settle_each (b ∷ bs) c = settle_each bs (settle_one b c)

unfoldable pub settle_background : Context → Context
unfolding settle_each
settle_background c = settle_each c.background c

-- FlowRunner.run, for a flow that is known. It returns True where it ended and no step failed, and
-- raises FlowStepFailures with the failures where some did.
unfoldable pub run_flow : Snapshot → (String → World) → List StepSpec → Run
unfolding run_steps settle_background
run_flow snap worlds steps = elim (run_steps snap worlds steps fresh) [
  | waits ↦ waits
  | broke c ↦ broke c
  | ended c ↦ ended (settle_background c)
]
