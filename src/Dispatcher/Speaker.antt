-- ===== src/Dispatcher/Speaker.antt =====
-- pihub/dispatcher.py: the speaker's actions, which its domain's worker carries out
-- (_handle_speaker_action, _call_action_method, _domain_worker). What the speaker's object has under a
-- name and how a call of it ends are parameters. Log lines are kept as their reasons, with the latch
-- that holds them back; times are in milliseconds.
use Prim.Native.Char.{code}
use Prim.Native.String.{String}
use text.Mathlib.Text.{starts_with}
use pihub_remote_nrf.Prelude.{
  ℕ, ◌-◌, Bool, true, false, not, Option, none, some, List, [], ◌∷◌, ◌++◌, ◌==◌, ◌&&◌, ◌||◌, ltb,
  nat_eq, if◌then◌else◌,
}
use pihub_remote_nrf.Prelude.Text.{is_empty, is_word, is_digit}
use pihub_remote_nrf.Prelude.Int.{pos, negsuc}
use pihub_remote_nrf.Prelude.Json.{Value, Fields, end, field, get_field, text_of, to_int, ok, err}
use pihub_remote_nrf.Slots.{
  Settings, SlotTarget, Play, preset_number, play_url, slot_empty, resolve_slot, play_slot,
}
use pihub_remote_nrf.Dispatcher.State.{Job}

-- What getattr gives for a name of the speaker's object.
pub data Attribute : Type 0 where
  missing uncallable not_async async_method : Attribute

-- A call of the speaker.
pub data SpeakerCall : Type 0 where
  plays : Play → SpeakerCall
  calls : String → Fields → SpeakerCall

-- How a call ends: it returns, raises an exception with this text, or is still running when the
-- worker's timeout cancels it.
pub data Reply : Type 0 where
  returned : Reply
  raised : String → Reply
  unfinished : Reply

pub record Speaker : Type 0 where
  pub reachable : Bool
  pub connected : Bool
  pub ready : Bool
  pub attribute : String → Attribute
  pub reply : SpeakerCall → Reply

-- last_key_error, without its time.
pub record KeyError : Type 0 where
  pub reason : String
  pub action : Option Value
  pub key : Option String

-- The state that speaker actions change, with the calls made of the speaker so far, and the reasons of
-- the warnings logged.
pub record Keys : Type 0 where
  pub last_key_error : Option KeyError
  pub last_cmd_fail_log : ℕ
  pub warnings : List String
  pub sent : List SpeakerCall

-- Why _call_action_method raises before it makes the call.
pub data Refusal : Type 0 where
  invalid denied unknown cannot_call non_async : Refusal

-- The rest of a name; `$` also matches before a line feed that ends the text.
word_tail : String → Bool
unfolding is_word
word_tail String.[] = true
word_tail (String.◌∷◌ c String.[]) = is_word (code c) || nat_eq (code c) 10
word_tail (String.◌∷◌ c (String.◌∷◌ d s)) =
    let rest = word_tail (String.◌∷◌ d s) in is_word (code c) && rest

-- _METHOD_RE.match(s)
unfoldable pub method_re : String → Bool
unfolding is_word word_tail
method_re String.[] = false
method_re (String.◌∷◌ c s) =
    is_word (code c) && not (is_digit (code c)) && not (nat_eq (code c) b'_') && word_tail s

-- method in _DENY_CALLS
unfoldable pub is_denied : String → Bool
is_denied s = s == "start" || s == "stop" || s == "_runner" || s == "snapshot"

unfoldable pub by_attribute : Attribute → Option Refusal
by_attribute missing = some unknown
by_attribute uncallable = some cannot_call
by_attribute not_async = some non_async
by_attribute async_method = none

-- The checks of _call_action_method.
unfoldable pub refusal : Speaker → String → Option Refusal
unfolding method_re is_denied by_attribute is_empty
refusal sp method =
    if is_empty method || not (method_re method)
    then some invalid
    else if starts_with method "_" || is_denied method
    then some denied
    else by_attribute (sp.attribute method)

is_schema_key : String → Bool
is_schema_key k =
    k == "domain"
    || k == "action"
    || k == "when"
    || k == "min_hold_ms"
    || k == "_when"
    || k == "_min_hold_ms"
    || k == "_extras"

unfoldable pub action_kwargs : Fields → Fields
unfolding is_schema_key
action_kwargs end = end
action_kwargs (field k v fs) =
    let rest = action_kwargs fs in if is_schema_key k then rest else field k v rest

-- _log_direct_failure
unfoldable pub log_direct_failure : ℕ → String → Keys → Keys
log_direct_failure now reason k =
    if ltb (now - k.last_cmd_fail_log) 60000
    then k
    else record k { last_cmd_fail_log = now; warnings = k.warnings ++ reason ∷ [] }

unfoldable pub key_failed : ℕ → Option Value → String → String → Keys → Keys
unfolding log_direct_failure
key_failed now action rem_key reason k = log_direct_failure now reason (record k {
  last_key_error = some (record { reason = reason; action = action; key = some rem_key });
})

unfoldable pub key_ok : Keys → Keys
key_ok k = record k { last_key_error = none; last_cmd_fail_log = 0 }

-- The worker's `except asyncio.TimeoutError`.
unfoldable pub abandoned : Keys → Keys
abandoned k = record k {
  last_key_error = some (record { reason = "speaker_action_failed"; action = none; key = none });
}

unfoldable pub make : SpeakerCall → Keys → Keys
make call k = record k { sent = k.sent ++ call ∷ [] }

-- int(a.get("slot")), where a negative number is out of range as 0 is.
unfoldable pub slot_of : Option Value → Option ℕ
unfolding to_int
slot_of none = none
slot_of (some v) = elim (to_int v) [ ok (pos n) ↦ some n | ok (negsuc n) ↦ some 0 | err e ↦ none ]

module _ (now : ℕ) (sp : Speaker) (a : Fields) (rem_key : String) where
  -- The key press fails for this reason.
  unfoldable pub fails : String → Keys → Keys
  unfolding key_failed
  fails reason k = key_failed now (get_field "action" a) rem_key reason k

  -- How a play of a slot ends.
  unfoldable pub after_play : SlotTarget → Reply → Keys → Keys
  unfolding key_ok fails abandoned is_empty
  after_play target returned k = key_ok k
  after_play target (raised e) k =
      fails (if not (is_empty target.url) then "play_url_failed" else "speaker_action_failed") k
  after_play target unfinished k = abandoned k

  unfoldable pub play_target : SlotTarget → Keys → Keys
  unfolding after_play make play_slot fails
  play_target target k = elim (play_slot target) [
    | slot_empty n ↦ fails "stream_slot_empty" k
    | preset_number n ↦
        after_play target (sp.reply (plays (preset_number n))) (make (plays (preset_number n)) k)
    | play_url url restream ↦
        after_play target (sp.reply (plays (play_url url restream)))
          (make (plays (play_url url restream)) k)
  ]

  -- The play_slot action.
  unfoldable pub play_slot_action : String → Option Settings → Keys → Keys
  unfolding play_target resolve_slot slot_of fails
  play_slot_action backend none k = fails "settings_missing" k
  play_slot_action backend (some settings) k = elim (slot_of (get_field "slot" a)) [
    | none ↦ fails "invalid_stream_slot" k
    | some slot ↦ elim (resolve_slot settings backend slot) [
      | none ↦ fails "invalid_stream_slot" k
      | some target ↦ play_target target k
    ]
  ]

  -- How a call of a method ends.
  unfoldable pub after_call : Reply → Keys → Keys
  unfolding key_ok fails abandoned
  after_call returned k = key_ok k
  after_call (raised e) k =
      if starts_with e "unsupported_on_backend:" then k else fails "speaker_action_failed" k
  after_call unfinished k = abandoned k

  -- _call_action_method, and what its caller makes of how it ends.
  unfoldable pub method_action : String → Keys → Keys
  unfolding refusal make after_call action_kwargs fails
  method_action method k = elim (refusal sp method) [
    | some r ↦ fails "speaker_action_failed" k
    | none ↦
        after_call (sp.reply (calls method (action_kwargs a)))
          (make (calls method (action_kwargs a)) k)
  ]

  -- The action of a speaker that is ready.
  unfoldable pub ready_action : String → Option Settings → Keys → Keys
  unfolding play_slot_action method_action is_empty
  ready_action backend settings k = elim (text_of (get_field "action" a)) [
    | none ↦ k
    | some action ↦
        if is_empty action
        then k
        else if action == "play_slot"
        then play_slot_action backend settings k
        else method_action action k
  ]

  -- _handle_speaker_action, with a speaker.
  unfoldable pub speaker_action : String → Option Settings → Keys → Keys
  unfolding ready_action fails
  speaker_action backend settings k =
      if not sp.reachable
      then fails "speaker_unreachable" k
      else if not sp.connected
      then fails "speaker_not_connected" k
      else if not sp.ready
      then fails "speaker_not_ready" k
      else ready_action backend settings k

unfoldable pub handle_speaker_action :
    ℕ → Option Speaker → String → Option Settings → String → Fields → String → Keys → Keys
unfolding speaker_action log_direct_failure
handle_speaker_action now sp backend settings edge a rem_key k =
    if not (edge == "down") then k else elim sp [
      | none ↦ log_direct_failure now "speaker_missing" k
      | some sp ↦ speaker_action now sp a rem_key backend settings k
    ]

-- A worker's rounds over its jobs, each with its time and the speaker as it is then.
unfoldable pub work : String → Option Settings → List (ℕ × Option Speaker × Job) → Keys → Keys
unfolding handle_speaker_action
work backend settings [] k = k
work backend settings ((now, sp, job) ∷ jobs) k =
    work backend settings jobs
      (handle_speaker_action now sp backend settings "down" job.action job.rem_key k)
