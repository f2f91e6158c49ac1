-- ===== src/Flows/Table.antt =====
-- pihub/flows.py: the flows of each speaker backend, as the steps they run in order, the mode each
-- leaves the remote in, and FlowRunner's choice among them.
use pihub_remote_nrf.Prelude.{
  String, Bool, true, false, Option, none, some, List, [], ◌∷◌, ◌++◌, ◌==◌, if◌then◌else◌,
}
use pihub_remote_nrf.Prelude.Text.{strip, lower}
use pihub_remote_nrf.Prelude.Dict
use pihub_remote_nrf.Prelude.Dict.{Dict}
use pihub_remote_nrf.Flows.Actions.{
  Action, apple_tv_home, apple_tv_on, tv_on, tv_off, tv_input_hdmi1, watch_volume, listen_volume,
  play_listen_target, speaker_stop, speaker_off, speaker_hdmi, speaker_leave_group, speaker_to_tv,
  settle_sleep,
}
use pihub_remote_nrf.Flows.Steps.{
  StepSpec, Condition, tv_is_on, tv_is_off, frame_tv_is_off, speaker_is_on_listen_source,
  speaker_is_in_multiroom, speaker_should_stop, Limit, no_limit, seconds,
}

abbrev spec : String → String → String → Action → Option Condition → Limit → Bool → StepSpec
spec step_id domain action run when limit background = record {
  step_id = step_id;
  domain = domain;
  action = action;
  run = run;
  when = when;
  limit = limit;
  background = background;
}

-- TV_POWER_TIMEOUT_S
abbrev tv_power_timeout : Limit
tv_power_timeout = seconds "8"

abbrev home : Bool → StepSpec
home = spec "apple_tv_return_home" "ble" "return_home" apple_tv_home (some tv_is_on) no_limit

abbrev switch_off : Bool → StepSpec
switch_off = spec "tv_power_off" "tv" "power_off" tv_off (some tv_is_on) tv_power_timeout

abbrev switch_on : StepSpec
switch_on = spec "tv_power_on" "tv" "power_on" tv_on (some tv_is_off) tv_power_timeout false

abbrev wake_apple_tv : StepSpec
wake_apple_tv = spec "apple_tv_power_on" "ble" "power_on" apple_tv_on (some tv_is_off) no_limit true

abbrev to_hdmi1 : StepSpec
to_hdmi1 =
    spec "tv_input_hdmi1" "tv" "set_input_hdmi1" tv_input_hdmi1 (some frame_tv_is_off) no_limit true

abbrev volume_watch : StepSpec
volume_watch = spec "speaker_watch_volume" "speaker" "set_volume" watch_volume none no_limit true

abbrev volume_listen : StepSpec
volume_listen = spec "speaker_listen_volume" "speaker" "set_volume" listen_volume none no_limit true

abbrev play_target : Bool → StepSpec
play_target =
    spec "speaker_play_listen_target" "speaker" "play_listen_target" play_listen_target none
      no_limit

abbrev to_hdmi : StepSpec
to_hdmi = spec "speaker_hdmi_source" "speaker" "set_source" speaker_hdmi none no_limit false

abbrev to_tv : Option Condition → StepSpec
to_tv when = spec "speaker_to_tv" "speaker" "release_to_tv" speaker_to_tv when no_limit false

abbrev pub stop_step : StepSpec
stop_step =
    spec "speaker_stop" "speaker" "stop_playback" speaker_stop (some speaker_should_stop) no_limit
      false

abbrev pub leave_step : StepSpec
leave_step =
    spec "speaker_leave_group" "speaker" "leave_native_multiroom_if_needed" speaker_leave_group
      (some speaker_is_in_multiroom) no_limit false

abbrev pub settle_step : StepSpec
settle_step =
    spec "speaker_settle_after_group" "system" "sleep" settle_sleep (some speaker_is_in_multiroom)
      no_limit false

-- _audiopro_stop_speaker
unfoldable pub audiopro_stop_speaker : List StepSpec
audiopro_stop_speaker = stop_step ∷ leave_step ∷ settle_step ∷ []

unfoldable pub audiopro_listen : List StepSpec
audiopro_listen = home true ∷ switch_off false ∷ volume_listen ∷ play_target false ∷ []

unfoldable pub audiopro_watch : List StepSpec
unfolding audiopro_stop_speaker
audiopro_watch =
    audiopro_stop_speaker ++ wake_apple_tv ∷ switch_on ∷ to_hdmi1 ∷ volume_watch ∷ to_hdmi ∷ []

unfoldable pub audiopro_listen_signal : List StepSpec
audiopro_listen_signal = switch_off true ∷ home false ∷ []

unfoldable pub audiopro_watch_signal : List StepSpec
unfolding audiopro_stop_speaker
audiopro_watch_signal = audiopro_stop_speaker ++ switch_on ∷ to_hdmi1 ∷ volume_watch ∷ to_hdmi ∷ []

unfoldable pub audiopro_power_off : List StepSpec
unfolding audiopro_stop_speaker
audiopro_power_off =
    home true
    ∷ switch_off false
    ∷ (audiopro_stop_speaker
        ++ spec "speaker_power_off" "speaker" "power_off" speaker_off
            (some speaker_is_on_listen_source) no_limit false
          ∷ [])

unfoldable pub soundbar_listen : List StepSpec
soundbar_listen = home true ∷ switch_off false ∷ volume_listen ∷ play_target true ∷ []

unfoldable pub soundbar_watch : List StepSpec
soundbar_watch = to_tv none ∷ wake_apple_tv ∷ switch_on ∷ volume_watch ∷ []

unfoldable pub soundbar_listen_signal : List StepSpec
soundbar_listen_signal = switch_off true ∷ home false ∷ []

unfoldable pub soundbar_watch_signal : List StepSpec
soundbar_watch_signal = to_tv none ∷ switch_on ∷ volume_watch ∷ []

unfoldable pub soundbar_power_off : List StepSpec
soundbar_power_off = home true ∷ switch_off false ∷ to_tv (some speaker_is_on_listen_source) ∷ []

-- _FLOWS, by backend profile.
unfoldable pub flows : Bool → Dict (List StepSpec)
unfolding audiopro_listen audiopro_watch audiopro_listen_signal audiopro_watch_signal
    audiopro_power_off soundbar_listen soundbar_watch soundbar_listen_signal soundbar_watch_signal
    soundbar_power_off
flows false =
    ("listen", audiopro_listen)
    ∷ ("watch", audiopro_watch)
    ∷ ("listen_signal", audiopro_listen_signal)
    ∷ ("watch_signal", audiopro_watch_signal)
    ∷ ("power_off", audiopro_power_off)
    ∷ []
flows true =
    ("listen", soundbar_listen)
    ∷ ("watch", soundbar_watch)
    ∷ ("listen_signal", soundbar_listen_signal)
    ∷ ("watch_signal", soundbar_watch_signal)
    ∷ ("power_off", soundbar_power_off)
    ∷ []

-- FlowRunner.__init__: every backend but the soundbar gets the Audio Pro flows.
unfoldable pub is_soundbar : Option String → Bool
unfolding strip lower
is_soundbar none = false
is_soundbar (some backend) = lower (strip backend) == "samsung_soundbar"

-- _TARGET_MODES
abbrev target_modes : Dict String
target_modes =
    ("listen", "listen")
    ∷ ("watch", "watch")
    ∷ ("listen_signal", "listen")
    ∷ ("watch_signal", "watch")
    ∷ ("power_off", "power_off")
    ∷ []

-- self._flows.get(name), with the name stripped
unfoldable pub find_flow : Bool → String → Option (List StepSpec)
unfolding flows strip Dict.get
find_flow soundbar name = Dict.get (strip name) (flows soundbar)

unfoldable pub target_mode : Bool → String → Option String
unfolding flows strip Dict.get Dict.has
target_mode soundbar name =
    if Dict.has (strip name) (flows soundbar) then Dict.get (strip name) target_modes else none
