-- ===== src/Dispatcher/Presses.antt =====
-- pihub/dispatcher.py: any sequence of presses of the speaker's keys makes only such calls.
use Prim.Native.String.{String}
use text.Mathlib.Text.{starts_with}
use pihub_remote_nrf.Prelude.{
  ℕ, ◌≡◌, inl, inr, refl, not, Option, none, some, List, [], ◌∷◌, ◌==◌, arith, if_cases, if_split,
  if◌then◌else◌,
}
use pihub_remote_nrf.Prelude.Text.{is_empty}
use pihub_remote_nrf.Prelude.Json.{Fields, get_field, text_of}
use pihub_remote_nrf.Slots.{
  Settings, SlotTarget, Play, preset_number, play_url, slot_empty, resolve_slot, play_slot,
}
use pihub_remote_nrf.Dispatcher.State.{Job}
use pihub_remote_nrf.Dispatcher.Speaker.{
  Speaker, Reply, returned, raised, unfinished, SpeakerCall, plays, calls, Keys, KeyError, Refusal,
  refusal, fails, key_failed, make, after_play, after_call, play_target, slot_of, play_slot_action,
  method_action, ready_action, speaker_action, handle_speaker_action, work, action_kwargs,
}
use pihub_remote_nrf.Dispatcher.Calls.{
  IsAllowed, IsReady, Pressed, ignored, refused, succeeded, failed, unsupported, Presses, none_left,
  one_more, log-sent, log-last_key_error, none-IsAllowed, IsPlayable, play_slot-IsPlayable,
  resolve_slot-preset,
}

module _ (now : ℕ) (sp : Speaker) (a : Fields) (rem_key : String) where
  -- The error of a press that fails.
  abbrev error : String → KeyError
  error reason = record { reason = reason; action = get_field "action" a; key = some rem_key }

  fails-sent : (reason : String) (k : Keys) → (fails now sp a rem_key reason k).sent ≡ k.sent
  unfolding fails key_failed
  fails-sent reason k = log-sent now reason _

  fails-last_key_error :
      (reason : String) (k : Keys)
      → (fails now sp a rem_key reason k).last_key_error ≡ some (error reason)
  unfolding fails key_failed
  fails-last_key_error reason k = log-last_key_error now reason _

  fails-Pressed :
      (reason : String) (k : Keys) → Pressed (some sp) rem_key k (fails now sp a rem_key reason k)
  fails-Pressed reason k =
      refused (error reason) _ (fails-sent reason k) (fails-last_key_error reason k) refl

  module _ (ready : IsReady sp) where
    fails_after :
        (call : SpeakerCall) (reason : String) (k : Keys)
        → IsAllowed sp call
        → Pressed (some sp) rem_key k (fails now sp a rem_key reason (make call k))
    unfolding make
    fails_after call reason k allowed =
        failed sp call (error reason) (fails now sp a rem_key reason (make call k)) refl ready
          allowed (inr refl) (fails-sent reason (make call k))
          (fails-last_key_error reason (make call k))

    play-Pressed :
        (target : SlotTarget) (play : Play) (k : Keys)
        → IsAllowed sp (plays play)
        → Pressed
            (some sp)
            rem_key
            k
            (after_play now sp a rem_key target (sp.reply (plays play)) (make (plays play) k))
    unfolding after_play make
    play-Pressed target play k allowed = by_reply (sp.reply (plays play)) refl
      where
        by_reply :
            (r : Reply)
            → sp.reply (plays play) ≡ r
            → Pressed
                (some sp)
                rem_key
                k
                (after_play now sp a rem_key target r (make (plays play) k))
        by_reply returned e = succeeded sp (plays play) _ refl ready allowed e refl refl
        by_reply (raised text) e = fails_after (plays play) _ k allowed
        by_reply unfinished e = failed sp (plays play) _ _ refl ready allowed (inl e) refl refl

    call-Pressed :
        (call : SpeakerCall) (k : Keys)
        → IsAllowed sp call
        → Pressed (some sp) rem_key k (after_call now sp a rem_key (sp.reply call) (make call k))
    unfolding after_call make
    call-Pressed call k allowed = by_reply (sp.reply call) refl
      where
        by_reply :
            (r : Reply)
            → sp.reply call ≡ r
            → Pressed (some sp) rem_key k (after_call now sp a rem_key r (make call k))
        by_reply returned e = succeeded sp call _ refl ready allowed e refl refl
        by_reply (raised text) e =
            if_split (Pressed (some sp) rem_key k) (starts_with text "unsupported_on_backend:")
              (λ h. unsupported sp call text _ refl ready allowed e h refl refl)
              (λ h. fails_after call _ k allowed)
        by_reply unfinished e = failed sp call _ _ refl ready allowed (inl e) refl refl

    -- What a resolved slot plays is allowed, where there is something to play.
    target-Pressed :
        (settings : Settings) (backend : String) (slot : ℕ) (target : SlotTarget) (k : Keys)
        → resolve_slot settings backend slot ≡ some target
        → Pressed (some sp) rem_key k (play_target now sp a rem_key target k)
    unfolding play_target play_slot IsAllowed
    target-Pressed settings backend slot target k h =
        by_play (play_slot target) (play_slot-IsPlayable target)
      where
        by_play :
            (p : Play)
            → IsPlayable target p
            → Pressed (some sp) rem_key k (elim p [
              | slot_empty n ↦ fails now sp a rem_key "stream_slot_empty" k
              | preset_number n ↦
                  after_play now sp a rem_key target
                    (sp.reply (plays (preset_number n)))
                    (make (plays (preset_number n)) k)
              | play_url url restream ↦
                  after_play now sp a rem_key target
                    (sp.reply (plays (play_url url restream)))
                    (make (plays (play_url url restream)) k)
            ])
        by_play (slot_empty n) v = fails-Pressed "stream_slot_empty" k
        by_play (preset_number n) v =
            play-Pressed target (preset_number n) k
              (resolve_slot-preset settings backend slot n target h v)
        by_play (play_url url restream) v = play-Pressed target (play_url url restream) k v

    play_slot_action-Pressed :
        (backend : String) (settings : Option Settings) (k : Keys)
        → Pressed (some sp) rem_key k (play_slot_action now sp a rem_key backend settings k)
    unfolding play_slot_action
    play_slot_action-Pressed backend none k = fails-Pressed "settings_missing" k
    play_slot_action-Pressed backend (some settings) k = by_slot (slot_of (get_field "slot" a))
      where
        by_target :
            (slot : ℕ) (t : Option SlotTarget)
            → resolve_slot settings backend slot ≡ t
            → Pressed (some sp) rem_key k (elim t [
              | none ↦ fails now sp a rem_key "invalid_stream_slot" k
              | some target ↦ play_target now sp a rem_key target k
            ])
        by_target slot none h = fails-Pressed "invalid_stream_slot" k
        by_target slot (some target) h = target-Pressed settings backend slot target k h

        by_slot :
            (s : Option ℕ)
            → Pressed (some sp) rem_key k (elim s [
              | none ↦ fails now sp a rem_key "invalid_stream_slot" k
              | some slot ↦ elim (resolve_slot settings backend slot) [
                | none ↦ fails now sp a rem_key "invalid_stream_slot" k
                | some target ↦ play_target now sp a rem_key target k
              ]
            ])
        by_slot none = fails-Pressed "invalid_stream_slot" k
        by_slot (some slot) = by_target slot (resolve_slot settings backend slot) refl

    method-Pressed :
        (method : String) (k : Keys)
        → Pressed (some sp) rem_key k (method_action now sp a rem_key method k)
    unfolding method_action
    method-Pressed method k = by_refusal (refusal sp method) refl
      where
        by_refusal :
            (r : Option Refusal)
            → refusal sp method ≡ r
            → Pressed (some sp) rem_key k (elim r [
              | some r ↦ fails now sp a rem_key "speaker_action_failed" k
              | none ↦
                  after_call now sp a rem_key
                    (sp.reply (calls method (action_kwargs a)))
                    (make (calls method (action_kwargs a)) k)
            ])
        by_refusal none h =
            call-Pressed (calls method (action_kwargs a)) k
              (none-IsAllowed sp method (action_kwargs a) h)
        by_refusal (some r) h = fails-Pressed "speaker_action_failed" k

    ready_action-Pressed :
        (backend : String) (settings : Option Settings) (k : Keys)
        → Pressed (some sp) rem_key k (ready_action now sp a rem_key backend settings k)
    unfolding ready_action
    ready_action-Pressed backend settings k = by_text (text_of (get_field "action" a))
      where
        by_text :
            (t : Option String)
            → Pressed (some sp) rem_key k (elim t [
              | none ↦ k
              | some action ↦
                  if is_empty action
                  then k
                  else if action == "play_slot"
                  then play_slot_action now sp a rem_key backend settings k
                  else method_action now sp a rem_key action k
            ])
        by_text none = ignored k refl refl
        by_text (some action) =
            if_cases (Pressed (some sp) rem_key k) (is_empty action) (ignored k refl refl) (
              if_cases (Pressed (some sp) rem_key k) (action == "play_slot")
                (play_slot_action-Pressed backend settings k) (method-Pressed action k))

  speaker_action-Pressed :
      (backend : String) (settings : Option Settings) (k : Keys)
      → Pressed (some sp) rem_key k (speaker_action now sp a rem_key backend settings k)
  unfolding speaker_action
  speaker_action-Pressed backend settings k =
      if_split P (not sp.reachable) (λ _. fails-Pressed "speaker_unreachable" k)
        (λ r.
          if_split P (not sp.connected) (λ _. fails-Pressed "speaker_not_connected" k)
            (λ c.
              if_split P (not sp.ready) (λ _. fails-Pressed "speaker_not_ready" k)
                (λ e. ready_action-Pressed (ground (arith, r, c, e)) backend settings k)))
    where
      P : Keys → Type 0
      P = Pressed (some sp) rem_key k

handle_speaker_action-Pressed :
    (now : ℕ) (sp : Option Speaker) (backend : String) (settings : Option Settings) (edge : String)
    (a : Fields) (rem_key : String) (k : Keys)
    → Pressed sp rem_key k (handle_speaker_action now sp backend settings edge a rem_key k)
unfolding handle_speaker_action
handle_speaker_action-Pressed now none backend settings edge a rem_key k =
    if_cases (Pressed none rem_key k) (not (edge == "down")) (ignored k refl refl)
      (ignored _ (log-sent now "speaker_missing" k) (log-last_key_error now "speaker_missing" k))
handle_speaker_action-Pressed now (some sp) backend settings edge a rem_key k =
    if_cases (Pressed (some sp) rem_key k) (not (edge == "down")) (ignored k refl refl)
      (speaker_action-Pressed now sp a rem_key backend settings k)

-- Whatever the keymap's actions say, and whatever the speaker is and answers, a sequence of presses of the
-- speaker's keys makes at most one call for each, in order, and only of a speaker that is then reachable,
-- connected and ready: of a public coroutine method outside its life cycle, of a preset from 1 to 6, or of
-- a URL that is not empty; and the error shown is cleared only by a press whose call returned.
pub work-Presses :
    (backend : String) (settings : Option Settings) (jobs : List (ℕ × Option Speaker × Job))
    (k : Keys)
    → Presses jobs k (work backend settings jobs k)
unfolding work
work-Presses backend settings [] k = none_left k
work-Presses backend settings ((now, sp, job) ∷ jobs) k =
    one_more now sp job
      (handle_speaker_action-Pressed now sp backend settings "down" job.action job.rem_key k)
      (work-Presses backend settings jobs
        (handle_speaker_action now sp backend settings "down" job.action job.rem_key k))
