-- ===== src/Dispatcher/Calls.antt =====
-- pihub/dispatcher.py: what a press of a speaker's key may do, and which calls are allowed.
use Prim.Native.String.{String}
use text.Mathlib.Text.{starts_with}
use pihub_remote_nrf.Prelude.{
  ℕ, ◌≡◌, ◌⊎◌, refl, true, false, Option, none, some, List, [], ◌∷◌, ◌++◌, ◌&&◌, leb, arith,
  if_split, if◌then◌else◌,
}
use pihub_remote_nrf.Prelude.Text.{is_empty}
use pihub_remote_nrf.Prelude.Json.{Fields}
use pihub_remote_nrf.Slots.{
  Settings, SlotTarget, Play, preset_number, play_url, slot_empty, resolve_slot, play_slot,
}
use pihub_remote_nrf.Dispatcher.State.{Job}
use pihub_remote_nrf.Dispatcher.Speaker.{
  Speaker, returned, raised, unfinished, SpeakerCall, plays, calls, Keys, KeyError, Attribute,
  missing, uncallable, not_async, async_method, refusal, by_attribute, is_denied,
  log_direct_failure,
}

-- A call that a keymap may make: a public coroutine method that is none of the speaker's own life cycle,
-- one of the speaker's presets 1 to 6, or a URL.
unfoldable pub IsAllowed : Speaker → SpeakerCall → Type 0
IsAllowed sp (calls method kwargs) =
    (sp.attribute method ≡ async_method)
    × (starts_with method "_" ≡ false)
    × (is_denied method ≡ false)
IsAllowed sp (plays (preset_number n)) = (leb 1 n && leb n 6) ≡ true
IsAllowed sp (plays (play_url url restream)) = is_empty url ≡ false
IsAllowed sp (plays (slot_empty slot)) = ⊥

abbrev pub IsReady : Speaker → Type 0
IsReady sp = (sp.reachable && sp.connected && sp.ready) ≡ true

-- What one press may do to the keys' state.
pub data Pressed (sp : Option Speaker) (rem_key : String) (k : Keys) : Keys → Type 0 where
  -- No call is made; the error shown stays, or becomes this key's.
  ignored :
      (k' : Keys)
      → k'.sent ≡ k.sent
      → k'.last_key_error ≡ k.last_key_error
      → Pressed sp rem_key k k'
  refused :
      (e : KeyError) (k' : Keys)
      → k'.sent ≡ k.sent
      → k'.last_key_error ≡ some e
      → e.key ≡ some rem_key
      → Pressed sp rem_key k k'
  -- One call is made, which returns, or does not: then the error is this key's, or that of a call
  -- given up, or stays where the speaker has no such action.
  succeeded :
      (speaker : Speaker) (call : SpeakerCall) (k' : Keys)
      → sp ≡ some speaker
      → IsReady speaker
      → IsAllowed speaker call
      → speaker.reply call ≡ returned
      → k'.sent ≡ k.sent ++ call ∷ []
      → k'.last_key_error ≡ none
      → Pressed sp rem_key k k'
  failed :
      (speaker : Speaker) (call : SpeakerCall) (e : KeyError) (k' : Keys)
      → sp ≡ some speaker
      → IsReady speaker
      → IsAllowed speaker call
      → (speaker.reply call ≡ unfinished) ⊎ (e.key ≡ some rem_key)
      → k'.sent ≡ k.sent ++ call ∷ []
      → k'.last_key_error ≡ some e
      → Pressed sp rem_key k k'
  unsupported :
      (speaker : Speaker) (call : SpeakerCall) (text : String) (k' : Keys)
      → sp ≡ some speaker
      → IsReady speaker
      → IsAllowed speaker call
      → speaker.reply call ≡ raised text
      → starts_with text "unsupported_on_backend:" ≡ true
      → k'.sent ≡ k.sent ++ call ∷ []
      → k'.last_key_error ≡ k.last_key_error
      → Pressed sp rem_key k k'

pub data Presses : List (ℕ × Option Speaker × Job) → Keys → Keys → Type 0 where
  none_left : (k : Keys) → Presses [] k k
  one_more :
      {jobs : List (ℕ × Option Speaker × Job)} {k k' k'' : Keys} (now : ℕ) (sp : Option Speaker)
      (job : Job)
      → Pressed sp job.rem_key k k'
      → Presses jobs k' k''
      → Presses ((now, sp, job) ∷ jobs) k k''

pub log-sent :
    (now : ℕ) (reason : String) (k : Keys) → (log_direct_failure now reason k).sent ≡ k.sent
unfolding log_direct_failure
log-sent now reason k = ground arith

pub log-last_key_error :
    (now : ℕ) (reason : String) (k : Keys)
    → (log_direct_failure now reason k).last_key_error ≡ k.last_key_error
unfolding log_direct_failure
log-last_key_error now reason k = ground arith

by_attribute-async : (t : Attribute) → by_attribute t ≡ none → t ≡ async_method
unfolding by_attribute
by_attribute-async missing h = ground (arith, h)
by_attribute-async uncallable h = ground (arith, h)
by_attribute-async not_async h = ground (arith, h)
by_attribute-async async_method h = refl

pub none-IsAllowed :
    (sp : Speaker) (method : String) (kwargs : Fields)
    → refusal sp method ≡ none
    → IsAllowed sp (calls method kwargs)
unfolding refusal IsAllowed
none-IsAllowed sp method kwargs h =
    (by_attribute-async _ (ground (arith, h)), ground (arith, h), ground (arith, h))

-- What a play that is not for an empty slot needs.
abbrev pub IsPlayable : SlotTarget → Play → Type 0
IsPlayable target (slot_empty n) = Unit
IsPlayable target (preset_number n) = target.preset ≡ some n
IsPlayable target (play_url url restream) = is_empty url ≡ false

pub play_slot-IsPlayable : (target : SlotTarget) → IsPlayable target (play_slot target)
unfolding play_slot
play_slot-IsPlayable target = by_preset target.preset refl
  where
    by_preset :
        (p : Option ℕ)
        → target.preset ≡ p
        → IsPlayable target (elim p [
          | some n ↦ preset_number n
          | none ↦
              if is_empty target.url
              then slot_empty target.slot
              else play_url target.url target.restream
        ])
    by_preset (some n) e = e
    by_preset none e = if_split (IsPlayable target) (is_empty target.url) (λ _. tt) (λ h. h)

pub resolve_slot-preset :
    (settings : Settings) (backend : String) (slot n : ℕ) (target : SlotTarget)
    → resolve_slot settings backend slot ≡ some target
    → target.preset ≡ some n
    → (leb 1 n && leb n 6) ≡ true
unfolding resolve_slot
resolve_slot-preset settings backend slot n target h e = ground (arith, h, e)
