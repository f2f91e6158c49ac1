-- ===== src/Flows/Actions.antt =====
-- pihub/flows.py: what a step's action asks of a device (FlowContext's actions and readiness tests).
-- The devices are not modelled here: `World` is how a step's action finds them, and what they answer.
use Prim.Native.String.{◌++◌ as str_append}
use pihub_remote_nrf.Prelude.{ℕ, String, Bool, true, false, not, Option, none, some, if◌then◌else◌}
use pihub_remote_nrf.Prelude.Text.{is_empty}
use pihub_remote_nrf.Slots.{
  Settings, SlotTarget, resolve_slot, listen_slot, play_slot, preset_number, play_url, slot_empty,
  slot_text,
}

-- The calls that actions make.
pub data Call : Type 0 where
  ble_return_home ble_power_on ble_power_off : Call
  tv_power_on tv_power_off tv_set_input_hdmi1 : Call
  set_volume : ℕ → Call
  preset : ℕ → Call
  play : String → Bool → Call
  stop_playback speaker_power_off leave_native_multiroom release_to_tv : Call
  set_source : String → Call
  sleep : Call

-- How a call ends: it returns (the TV's calls say whether they did it), raises an error with a text,
-- raises TimeoutError, or has not ended when every limit on it has passed.
pub data Answer : Type 0 where
  returns : Bool → Answer
  raises : String → Answer
  raises_timeout : Answer
  hangs : Answer

pub record SpeakerState : Type 0 where
  pub ready : Bool
  pub reachable : Bool
  pub connected : Bool
  pub last_error : String

pub record BleStatus : Type 0 where
  pub ready : Bool
  pub transport_open : Bool
  pub connected : Bool
  pub last_error : String

pub record World : Type 0 where
  pub speaker : Option SpeakerState
  pub ble : Option BleStatus
  -- The TV, by whether it has a token.
  pub tv : Option Bool
  pub settings : Option Settings
  pub speaker_backend : String
  pub answer : Call → Answer

pub data Action : Type 0 where
  apple_tv_home apple_tv_on apple_tv_off tv_on tv_off tv_input_hdmi1 watch_volume listen_volume :
      Action
  play_listen_target speaker_stop speaker_off speaker_hdmi speaker_leave_group speaker_to_tv :
      Action
  settle_sleep : Action

-- An action raises before it asks for anything, or makes one call.
pub data Plan : Type 0 where
  refuses : String → Plan
  asks : Call → Plan

-- f"{reason}{detail}"
abbrev with_detail : String → String → String
with_detail reason last_error =
    if is_empty last_error then reason else str_append reason (str_append ": " last_error)

require_speaker : World → Call → Plan
unfolding is_empty
require_speaker w call = elim w.speaker [
  | none ↦ refuses "speaker_unavailable"
  | some st ↦
      if st.ready
      then asks call
      else if not st.reachable
      then refuses (with_detail "speaker_not_reachable" st.last_error)
      else if not st.connected
      then refuses (with_detail "speaker_not_connected" st.last_error)
      else refuses (with_detail "speaker_not_ready" st.last_error)
]

require_ble : World → Call → Plan
unfolding is_empty
require_ble w call = elim w.ble [
  | none ↦ refuses "ble_unavailable"
  | some status ↦
      if status.ready
      then asks call
      else if not status.transport_open
      then refuses (with_detail "ble_transport_down" status.last_error)
      else if not status.connected
      then refuses (with_detail "ble_not_connected" status.last_error)
      else refuses (with_detail "ble_not_ready" status.last_error)
]

require_tv : World → Call → Plan
require_tv w call = elim w.tv [
  | none ↦ refuses "tv_unavailable"
  | some token_present ↦ if token_present then asks call else refuses "tv_token_missing"
]

watch_volume_pct : Option Settings → ℕ
watch_volume_pct none = 0
watch_volume_pct (some s) = s.get_watch_volume_pct

listen_volume_pct : Option Settings → ℕ
listen_volume_pct none = 0
listen_volume_pct (some s) = s.get_listen_volume_pct

play_target : Option SlotTarget → World → Plan
unfolding slot_text
play_target none w = refuses "slot must be between 1 and 10"
play_target (some target) w = elim (play_slot target) [
  | preset_number n ↦ asks (preset n)
  | play_url url restream ↦ asks (play url restream)
  | slot_empty slot ↦
      refuses (str_append "slot " (str_append (slot_text slot) " has no stream URL"))
]

-- After the speaker was found ready.
listen_plan : Plan → World → Plan
unfolding play_target
listen_plan (refuses e) w = refuses e
listen_plan (asks _) w = elim w.settings [
  | none ↦ refuses "listen target configured but settings unavailable"
  | some s ↦ play_target (resolve_slot s w.speaker_backend (listen_slot s w.speaker_backend)) w
]

unfoldable pub plan : Action → World → Plan
unfolding require_speaker require_ble require_tv watch_volume_pct listen_volume_pct listen_plan
plan apple_tv_home w = require_ble w ble_return_home
plan apple_tv_on w = require_ble w ble_power_on
plan apple_tv_off w = require_ble w ble_power_off
plan tv_on w = require_tv w tv_power_on
plan tv_off w = require_tv w tv_power_off
plan tv_input_hdmi1 w = require_tv w tv_set_input_hdmi1
plan watch_volume w = require_speaker w (set_volume (watch_volume_pct w.settings))
plan listen_volume w = require_speaker w (set_volume (listen_volume_pct w.settings))
plan play_listen_target w = listen_plan (require_speaker w sleep) w
plan speaker_stop w = require_speaker w stop_playback
plan speaker_off w = require_speaker w speaker_power_off
plan speaker_hdmi w = require_speaker w (set_source "hdmi")
plan speaker_leave_group w = require_speaker w leave_native_multiroom
plan speaker_to_tv w = require_speaker w release_to_tv
plan settle_sleep w = asks sleep

-- What a call's False means to the action that made it.
abbrev refusal : Call → Option String
refusal tv_power_on = some "tv_power_on_failed"
refusal tv_power_off = some "tv_power_off_failed"
refusal tv_set_input_hdmi1 = some "tv_set_input_failed"
refusal _ = none

-- How an action ends.
pub data Outcome : Type 0 where
  completed : Outcome
  raised : String → Outcome
  raised_timeout : Outcome
  late : Outcome

answered : Call → Answer → Outcome
answered call (returns true) = completed
answered call (returns false) = elim (refusal call) [ none ↦ completed | some e ↦ raised e ]
answered call (raises e) = raised e
answered call raises_timeout = raised_timeout
answered call hangs = late

outcome_of : Plan → World → Outcome
unfolding answered
outcome_of (refuses e) w = raised e
outcome_of (asks call) w = answered call (w.answer call)

unfoldable pub run_action : Action → World → Outcome
unfolding plan outcome_of
run_action a w = outcome_of (plan a w) w
