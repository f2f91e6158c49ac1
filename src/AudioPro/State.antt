-- ===== src/AudioPro/State.antt =====
-- pihub/audiopro_speaker.py: SpeakerState and the driver's own state, and _apply_updates with the listen signal.
-- The volume is kept in percent (the source divides it by 100 and rounds back); wall-clock times and log lines
-- are not modelled.
use pihub_remote_nrf.Prelude.{
  ℕ, String, Bool, false, not, Option, none, some, List, [], ◌∷◌, ◌++◌, ◌==◌, ◌&&◌, ◌||◌,
  if◌then◌else◌,
}
use pihub_remote_nrf.Prelude.Int.{ℤ, pos, negsuc}
use pihub_remote_nrf.Prelude.Text.{strip, lower}
use pihub_remote_nrf.InitialStatus.{InitialStatus, init}
use pihub_remote_nrf.AudioPro.Asking.{Asking, new_asking, min}

-- The callback's payload for a listen signal.
pub record Signal : Type 0 where
  pub source : Option String
  pub playback_status : Option String

pub record SpeakerState : Type 0 where
  pub reachable : Bool
  pub connected : Bool
  pub ready : Bool
  pub last_error : Option String
  pub powered_on : Option Bool
  pub playback_status : Option String
  pub volume : Option ℕ
  pub muted : Option Bool
  pub source : Option String
  pub source_detail : Option String
  pub multiroom_guest_active : Bool
  pub multiroom_host_active : Bool
  pub multiroom_slave_count : ℕ
  pub multiroom_host_ip : Option String

abbrev pub new_state : SpeakerState
new_state = record {
  reachable = false;
  connected = false;
  ready = false;
  last_error = none;
  powered_on = none;
  playback_status = none;
  volume = none;
  muted = none;
  source = none;
  source_detail = none;
  multiroom_guest_active = false;
  multiroom_host_active = false;
  multiroom_slave_count = 0;
  multiroom_host_ip = none;
}

-- AudioProSpeaker, with what it has sent and signalled.
pub record Speaker : Type 0 where
  pub speaker_ip : String
  pub known_speaker_ips : List String
  pub state : SpeakerState
  pub asking : Asking
  -- A task of _run_scheduled_multiroom_guest_host_refresh is pending and not done.
  pub host_ip_pending : Bool
  pub physical_mute_restore_pct : Option ℕ
  pub physical_muted : Bool
  pub initial : InitialStatus
  -- The payloads written to the link by _send, and the commands given to _http_cmd_text with the speaker they are for.
  pub sent : List String
  pub requests : List (Option String × String)
  -- What is given to the state-change callback.
  pub signals : List Signal

abbrev pub new_speaker : String → List String → Speaker
new_speaker speaker_ip known_speaker_ips = record {
  speaker_ip = speaker_ip;
  known_speaker_ips = known_speaker_ips;
  state = new_state;
  asking = new_asking;
  host_ip_pending = false;
  physical_mute_restore_pct = none;
  physical_muted = false;
  initial = init;
  sent = [];
  requests = [];
  signals = [];
}

-- _clamp_int(v, 0, 100)
abbrev pub percent : ℤ → ℕ
percent (pos n) = min n 100
percent (negsuc n) = 0

-- The keyword arguments of _apply_updates: `none` is one that is not given (_UNSET, or None where None means that).
pub record Updates : Type 0 where
  pub source : Option (Option String)
  pub source_detail : Option (Option String)
  pub playback_status : Option (Option String)
  pub volume_pct : Option ℤ
  pub muted : Option Bool
  pub ready : Option Bool

abbrev pub no_updates : Updates
no_updates = record {
  source = none;
  source_detail = none;
  playback_status = none;
  volume_pct = none;
  muted = none;
  ready = none;
}

abbrev pub or_keep : {A : Type 0} → Option A → A → A
or_keep none a = a
or_keep (some b) a = b

abbrev pub some_or_keep : {A B : Type 0} → (A → B) → Option A → Option B → Option B
some_or_keep f none b = b
some_or_keep f (some a) b = some (f a)

abbrev pub update_state : Updates → SpeakerState → SpeakerState
update_state u st = record st {
  source = or_keep u.source st.source;
  source_detail = or_keep u.source_detail st.source_detail;
  playback_status = or_keep u.playback_status st.playback_status;
  volume = some_or_keep percent u.volume_pct st.volume;
  muted = some_or_keep (λ b. b) u.muted st.muted;
  ready = or_keep u.ready st.ready;
}

-- (s or "").strip().lower()
unfoldable pub plain : Option String → String
unfolding strip lower
plain none = ""
plain (some s) = lower (strip s)

-- src in _NETWORK_SOURCES
abbrev pub is_network : String → Bool
is_network src = src == "wifi" || src == "airplay" || src == "multiroom-secondary"

-- source in _PHYSICAL_SOURCES
abbrev pub is_physical : String → Bool
is_physical src = src == "hdmi" || src == "optical" || src == "line-in" || src == "bluetooth"

unfoldable pub listen_active : Option String → Option String → Bool
unfolding plain
listen_active source status =
    is_network (plain source) && (plain status == "load" || plain status == "play")

unfoldable pub listening : SpeakerState → Bool
unfolding listen_active
listening st = listen_active st.source st.playback_status

-- _emit_listen_edge, by whether the speaker was listening before.
unfoldable pub emit_listen_edge : Bool → Speaker → Speaker
unfolding listening
emit_listen_edge old_active s =
    if not s.initial.settled
    then s
    else if not old_active && listening s.state
    then record s {
      signals =
          s.signals
          ++ record { source = s.state.source; playback_status = s.state.playback_status } ∷ [];
    }
    else s

unfoldable pub apply_updates : Updates → Speaker → Speaker
unfolding emit_listen_edge listening
apply_updates u s =
    emit_listen_edge (listening s.state) (record s { state = update_state u s.state })
