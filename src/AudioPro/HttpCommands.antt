-- ===== src/AudioPro/HttpCommands.antt =====
-- pihub/audiopro_speaker.py: the commands of the HTTP API (_http_control, _http_command, power_off, play_url,
-- set_source). The text of an error is what _http_control makes of the exception.
use Prim.Native.String
use pihub_remote_nrf.Prelude.{ℕ, String, Bool, false, Option, none, some, ◌==◌, if◌then◌else◌}
use pihub_remote_nrf.Prelude.Result.{Result}
use pihub_remote_nrf.Prelude.Text.{is_empty}
use pihub_remote_nrf.AudioPro.State.{Speaker, plain}
use pihub_remote_nrf.AudioPro.Commands.{
  Outcome, note_error, and_then, refresh_after, refresh, delayed_refresh, require_control_sent,
}
use pihub_remote_nrf.AudioPro.Multiroom.{World, http_cmd_text}

abbrev pub error_of : Speaker × Result String → Speaker × Option String
error_of (s, Result.ok body) = (s, none)
error_of (s, Result.err e) = (s, some (String.◌++◌ "httpapi failed: " e))

unfoldable pub http_control : World → String → Speaker → Speaker × Bool
unfolding http_cmd_text
http_control w cmd s =
    if s.state.ready then note_error (error_of (http_cmd_text w (none, cmd) s)) else (s, false)

unfoldable pub http_command : World → String → String → Option ℕ → Speaker → Outcome
unfolding http_control require_control_sent
http_command w cmd action delay s =
    and_then (refresh_after delay) (require_control_sent action (http_control w cmd s))

unfoldable pub power_off : World → Speaker → Outcome
unfolding http_command
power_off w s = http_command w "setShutdown:0" "power_off" none s

unfoldable pub play_url : World → String → Speaker → Outcome
unfolding http_command is_empty
play_url w url s =
    if is_empty url
    then (s, Result.err "play_url_missing")
    else http_command w (String.◌++◌ "setPlayerCmd:play:" url) "play_url" refresh s

-- source_map.get(src)
unfoldable pub http_mode : String → Option String
http_mode src =
    if src == "wifi"
    then some "wifi"
    else if src == "hdmi"
    then some "HDMI"
    else if src == "optical"
    then some "optical"
    else if src == "line-in"
    then some "line-in"
    else if src == "bluetooth"
    then some "bluetooth"
    else none

unfoldable pub set_source : World → String → Speaker → Outcome
unfolding http_command http_mode plain
set_source w source s = elim (http_mode (plain (some source))) [
  | none ↦ (s, Result.err (String.◌++◌ "set_source_unsupported:" source))
  | some mode ↦
      http_command w (String.◌++◌ "setPlayerCmd:switchmode:" mode) "set_source" delayed_refresh s
]
