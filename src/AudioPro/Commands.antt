-- ===== src/AudioPro/Commands.antt =====
-- pihub/audiopro_speaker.py: what the speaker is told to do, over TCP (_send, _send_control, _tcp_command and the
-- commands), and the link's end (_mark_down, _disconnect). How a send goes is an argument.
use Prim.Native.String
use Prim.Native.String.{len}
use pihub_remote_nrf.Prelude.{
  ℕ, String, ◌+◌, ◌-◌, Bool, true, false, not, Option, none, some, [], ◌∷◌, ◌++◌, ◌==◌, ◌&&◌, ltb,
  if◌then◌else◌,
}
use pihub_remote_nrf.Prelude.Int.{ℤ, pos, negsuc}
use pihub_remote_nrf.Prelude.Result.{Result}
use pihub_remote_nrf.Prelude.Text.{strip, is_empty, three_digits, without_end}
use pihub_remote_nrf.AudioPro.Asking.{min, cancel_pending_pinfget, request_pinfget}
use pihub_remote_nrf.AudioPro.State.{Speaker, percent, plain, no_updates, apply_updates}

-- A send goes through, finds no writer, or fails with this text: before its packet is written, or after it,
-- where draining the writer fails (the flag).
pub data Sending : Type 0 where
  goes unconnected : Sending
  fails : Bool → String → Sending

abbrev pub Outcome : Type 0
Outcome = Speaker × Result (Unit {0})

unfoldable pub mark_down : String → Speaker → Speaker
mark_down err s = record s {
  state = record s.state {
    reachable = false;
    connected = false;
    ready = false;
    last_error = some err;
  };
}

unfoldable pub disconnect : Speaker → Speaker
unfolding cancel_pending_pinfget
disconnect s = record s {
  asking = cancel_pending_pinfget s.asking;
  host_ip_pending = false;
  state = record s.state { reachable = false; connected = false; ready = false };
}

-- What _send puts on the line: _needs_amp.
unfoldable pub with_amp : String → String
unfolding without_end
with_amp payload =
    if ltb 11 (len payload) && without_end b'&' payload == payload
    then String.◌++◌ payload "&"
    else payload

-- The packet is written to the link, where the flag says so.
abbrev pub put_packet : Bool → String → Speaker → Speaker
put_packet written payload s = record s {
  sent = if written then s.sent ++ payload ∷ [] else s.sent;
}

-- _send: the state after it, and the error raised.
unfoldable pub send : Sending → String → Speaker → Speaker × Option String
unfolding with_amp mark_down disconnect
send unconnected payload s = (s, some "not connected")
send goes payload s = (put_packet true (with_amp payload) s, none)
send (fails written e) payload s =
    let reason = String.◌++◌ "send failed: " e in
    (disconnect (mark_down reason (put_packet written (with_amp payload) s)), some reason)

abbrev pub note_error : Speaker × Option String → Speaker × Bool
note_error (s, none) = (record s { state = record s.state { last_error = none } }, true)
note_error (s, some e) = (record s { state = record s.state { last_error = some e } }, false)

unfoldable pub send_control : Sending → String → Speaker → Speaker × Bool
unfolding send
send_control how payload s = if s.state.ready then note_error (send how payload s) else (s, false)

-- The error of _require_control_sent, by the action and the last error.
unfoldable pub not_sent : String → Option String → String
unfolding strip is_empty
not_sent action none = String.◌++◌ action "_not_sent"
not_sent action (some e) =
    if is_empty (strip e)
    then String.◌++◌ action "_not_sent"
    else String.◌++◌ (String.◌++◌ action "_not_sent: ") (strip e)

unfoldable pub require_control_sent : String → Speaker × Bool → Outcome
unfolding not_sent
require_control_sent action (s, ok) =
    if ok then (s, Result.ok tt) else (s, Result.err (not_sent action s.state.last_error))

-- What follows a command that did not raise.
abbrev pub and_then : (Speaker → Speaker) → Outcome → Outcome
and_then f (s, Result.ok x) = (f s, Result.ok x)
and_then f (s, Result.err e) = (s, Result.err e)

-- The status request after a command: none, or with its delay.
abbrev pub refresh_after : Option ℕ → Speaker → Speaker
refresh_after none s = s
refresh_after (some delay) s = record s { asking = request_pinfget delay s.asking }

-- `refresh=True`, and `delayed_refresh=True`
abbrev pub refresh : Option ℕ
refresh = some 250

abbrev pub delayed_refresh : Option ℕ
delayed_refresh = some 750

unfoldable pub tcp_command : Sending → String → String → Option ℕ → Speaker → Outcome
unfolding send_control require_control_sent request_pinfget
tcp_command how payload action delay s =
    and_then (refresh_after delay) (require_control_sent action (send_control how payload s))

unfoldable pub mcu_vol : ℕ → String
unfolding three_digits
mcu_vol n = String.◌++◌ "MCU+VOL+" (three_digits n)

abbrev pub volume_step_pct : ℕ
volume_step_pct = 2

abbrev pub hdmi_soft_mute_restore_default_pct : ℕ
hdmi_soft_mute_restore_default_pct = 30

-- The volume to go back to after the soft mute.
unfoldable pub restore_pct : Option ℕ → ℕ
restore_pct none = hdmi_soft_mute_restore_default_pct
restore_pct (some n) = if ltb 0 n then n else hdmi_soft_mute_restore_default_pct

abbrev pub or_zero : Option ℕ → ℕ
or_zero none = 0
or_zero (some n) = n

unfoldable pub is_soft_muted : Speaker → Bool
unfolding plain
is_soft_muted s = plain s.state.source == "hdmi" && s.physical_muted

abbrev pub soft_unmuted : Speaker → Speaker
soft_unmuted s = record s { physical_muted = false; state = record s.state { muted = some false } }

-- volume_up and volume_down, by what they make of a volume.
unfoldable pub step_volume : (ℕ → ℕ) → String → Sending → Speaker → Outcome
unfolding is_soft_muted restore_pct mcu_vol tcp_command
step_volume next action how s =
    if is_soft_muted s
    then tcp_command how (mcu_vol (next (restore_pct s.physical_mute_restore_pct))) action none
        (soft_unmuted s)
    else tcp_command how (mcu_vol (next (or_zero s.state.volume))) action none s

-- nxt, of a volume
abbrev pub louder : ℕ → ℕ
louder v = min (v + volume_step_pct) 100

abbrev pub softer : ℕ → ℕ
softer v = min (v - volume_step_pct) 100

unfoldable pub volume_up : Sending → Speaker → Outcome
unfolding step_volume
volume_up = step_volume louder "volume_up"

unfoldable pub volume_down : Sending → Speaker → Outcome
unfolding step_volume
volume_down = step_volume softer "volume_down"

unfoldable pub set_volume : Sending → ℤ → Speaker → Outcome
unfolding tcp_command mcu_vol
set_volume how pct s = tcp_command how (mcu_vol (percent pct)) "set_volume" none s

-- What the soft mute remembers, from the volume and what it remembers already.
unfoldable pub to_restore : ℕ → Option ℕ → Option ℕ
to_restore cur restore =
    if ltb 0 cur
    then some cur
    else elim restore [ none ↦ some hdmi_soft_mute_restore_default_pct | some n ↦ some n ]

unfoldable pub soft_mute : Speaker → Speaker
unfolding to_restore
soft_mute s = record s {
  physical_mute_restore_pct =
      if s.physical_muted
      then s.physical_mute_restore_pct
      else to_restore (or_zero s.state.volume) s.physical_mute_restore_pct;
  physical_muted = true;
}

abbrev pub is_muted_to : Bool → Option Bool → Bool
is_muted_to target none = false
is_muted_to true (some b) = b
is_muted_to false (some b) = not b

unfoldable pub set_muted : Sending → Bool → Speaker → Outcome
unfolding plain soft_mute apply_updates set_volume restore_pct tcp_command
set_muted how target s =
    let updates = record no_updates { muted = some target } in
    if plain s.state.source == "hdmi"
    then if target
      then set_volume how (pos 0) (apply_updates updates (soft_mute s))
      else set_volume how (pos (restore_pct s.physical_mute_restore_pct))
          (apply_updates updates (record s { physical_muted = false }))
    else if is_muted_to target s.state.muted
    then (s, Result.ok tt)
    else and_then (apply_updates updates) (
        tcp_command how (String.◌++◌ "MCU+MUT+" (if target then "001" else "000")) "set_muted"
          refresh s)

abbrev pub is_true : Option Bool → Bool
is_true none = false
is_true (some b) = b

unfoldable pub mute_toggle : Sending → Speaker → Outcome
unfolding set_muted
mute_toggle how s = set_muted how (not (is_true s.state.muted)) s

-- The commands that only send: their payload, their action, and the status request after them.
pub data Command : Type 0 where
  play pause stop_playback next_track previous_track play_pause next_preset previous_preset :
      Command
  preset : ℤ → Command

-- _clamp_int(n, 1, 10)
abbrev pub preset_of : ℤ → ℕ
preset_of (pos n) = if ltb 0 n then min n 10 else 1
preset_of (negsuc n) = 1

-- A command's payload, its action, and the status request after it.
unfoldable pub message : Command → String × String × Option ℕ
unfolding three_digits
message play = ("MCU+PLY-PLA", "play", refresh)
message pause = ("MCU+PLY-PUS", "pause", refresh)
message stop_playback = ("MCU+PLY-STP", "stop_playback", refresh)
message next_track = ("MCU+PLY+NXT", "next_track", none)
message previous_track = ("MCU+PLY+PRV", "previous_track", none)
message play_pause = ("MCU+PLY+PUS", "play_pause", refresh)
message next_preset = ("MCU+KEY+NXT", "next_preset", none)
message previous_preset = ("MCU+KEY+PRE", "previous_preset", none)
message (preset n) = ((String.◌++◌ "MCU+KEY+" (three_digits (preset_of n))), "preset", none)

unfoldable pub command : Command → Sending → Speaker → Outcome
unfolding message tcp_command
command c how s = tcp_command how (message c).0 (message c).1 (message c).2 s
