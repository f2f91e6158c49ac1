-- ===== src/Examples/SpeakerRuns.antt =====
-- Runs of pihub/audiopro_speaker.py and pihub/samsung_soundbar.py.
use Prim.Native.String
use pihub_remote_nrf.Prelude.{
  ◌≡◌, ◌++◌, refl, true, false, none, some, List, [], ◌∷◌, arith, String, Option, take, drop,
}
use pihub_remote_nrf.Prelude.Int.{pos}
use pihub_remote_nrf.Prelude.Json.{Value, Fields}
use pihub_remote_nrf.Prelude.Result.{Result}
use pihub_remote_nrf.Ble.Frames.{Bytes}
use pihub_remote_nrf.AudioPro.Packet.{mk_packet, read_loop, take_packets, round, breaks}
use pihub_remote_nrf.AudioPro.Ending.{take_packets-ends}
use pihub_remote_nrf.AudioPro.Framing.{stream, read_loop-stream}
use pihub_remote_nrf.AudioPro.Asking.{
  Asking, new_asking, request_pinfget, run, Event, starts, hint, time_passes, looks,
}
use pihub_remote_nrf.AudioPro.Hints.{Answered, hint-Answered}
use pihub_remote_nrf.AudioPro.State.{Speaker, new_speaker, new_state, plain}
use pihub_remote_nrf.AudioPro.Payloads.{on_payload}
use pihub_remote_nrf.AudioPro.Consistent.{IsConsistent}
use pihub_remote_nrf.AudioPro.Reach
use pihub_remote_nrf.AudioPro.Reach.{reachable-IsConsistent}
use pihub_remote_nrf.AudioPro.Signals.{Edge, on_payload-signals}
use pihub_remote_nrf.AudioPro.Commands.{goes, unconnected, fails, set_muted, mcu_vol, with_amp}
use pihub_remote_nrf.AudioPro.Mute.{Restored, handle_vols, set_muted-set_muted}
use pihub_remote_nrf.AudioPro.Multiroom.{World}
use pihub_remote_nrf.AudioPro.Link.{request_refresh, failure}
use pihub_remote_nrf.AudioPro.Refresh.{IsTold, request_refresh-IsTold, failed_refresh-ok}
use pihub_remote_nrf.Soundbar.Heard.{new_heard, heard, said}
use pihub_remote_nrf.Soundbar.State
use pihub_remote_nrf.Soundbar.Signals.{edge, is_first, soundbar_reports}

-- Two payloads, whose packets arrive cut in the middle of a header.
abbrev payloads : List Bytes
payloads = (65 ∷ 66 ∷ []) ∷ (67 ∷ []) ∷ []

abbrev bytes : Bytes
bytes = stream payloads

abbrev chunks : List Bytes
chunks = take 24 bytes ∷ drop 24 bytes ∷ []

take_packets-ends_example :
    (round (take_packets 50 bytes).1 ≡ breaks (take_packets 50 bytes).1)
    × (take_packets 50 bytes ≡ take_packets 44 bytes)
unfolding stream mk_packet
take_packets-ends_example = take_packets-ends 50 bytes (omega arith)

read_loop-stream_example : read_loop chunks [] ≡ (payloads, [])
unfolding stream mk_packet
read_loop-stream_example = read_loop-stream payloads chunks (omega arith, (omega arith, tt)) refl

-- A burst of hints: the request goes out two seconds after the first.
abbrev enabled : Asking
enabled = record new_asking { enabled = true; now = 5000 }

abbrev burst : List Event
burst = time_passes 500 ∷ hint 1000 ∷ time_passes 600 ∷ looks ∷ []

hint-Answered_example :
    Answered 5000
      (run burst (request_pinfget 300 enabled)).last_pinfget
      (run burst (request_pinfget 300 enabled)).last_hint
      (run burst (request_pinfget 300 enabled)).pending_task
hint-Answered_example = hint-Answered 300 burst enabled refl (refl, (refl, (refl, (refl, tt))))

abbrev pushed_back : List Event
pushed_back =
    starts
    ∷ hint 1000
    ∷ time_passes 900
    ∷ hint 1000
    ∷ time_passes 900
    ∷ hint 1000
    ∷ time_passes 200
    ∷ []

abbrev quiet_speaker : Speaker
quiet_speaker = record (new_speaker "10.0.0.2" ("10.0.0.3" ∷ [])) {
  initial = record { settled = true; received = true };
}

abbrev no_json : String → Option Fields
no_json raw = none

abbrev no_text : Value → String
no_text v = ""

on_payload-signals_example :
    Edge quiet_speaker (on_payload no_json no_text "AXX+PLM+010" quiet_speaker)
on_payload-signals_example = on_payload-signals no_json no_text "AXX+PLM+010" quiet_speaker

-- The speaker says that it hosts one guest, and is muted.
abbrev told : Speaker
told = on_payload no_json no_text "AXX+SLV+001" (new_speaker "10.0.0.2" [])

reachable-IsConsistent_example : IsConsistent (set_muted goes true told).0.state
reachable-IsConsistent_example = reachable-IsConsistent "10.0.0.2" [] (set_muted goes true told).0 (
    Reach.next
      (Reach.next Reach.here
        (Reach.on_a_payload no_json no_text "AXX+SLV+001" (new_speaker "10.0.0.2" [])))
      (Reach.mutes goes true told))

-- On HDMI at 35 percent.
abbrev watching : Speaker
watching = record quiet_speaker {
  state = record new_state {
    ready = true;
    connected = true;
    source = some "hdmi";
    volume = some 35;
  };
}

set_muted-set_muted_example :
    Restored 35
      (with_amp (mcu_vol 0) ∷ [])
      (set_muted goes false (handle_vols ("AXX+VOL+000" ∷ []) (set_muted goes true watching).0))
unfolding plain
set_muted-set_muted_example =
    set_muted-set_muted 35 ("AXX+VOL+000" ∷ []) watching refl refl refl refl (omega arith)
      (omega arith)

-- Every request is answered OK.
abbrev agreeing : World
agreeing = record {
  loads = λ body. none;
  str_of = no_text;
  repr = no_text;
  answer = λ before r. Result.ok "OK";
}

abbrev hosting : Speaker
hosting = record watching {
  state = record watching.state { multiroom_host_active = true; multiroom_slave_count = 1 };
}

abbrev running : Speaker
running = record watching { asking = record new_asking { enabled = true } }

abbrev plain_repr : String → String
plain_repr e = e

request_refresh-IsTold_example :
    IsTold true goes
      (fails true "send timeout")
      unconnected
      []
      (request_refresh agreeing plain_repr goes (fails true "send timeout") unconnected running)
request_refresh-IsTold_example =
    request_refresh-IsTold agreeing plain_repr goes (fails true "send timeout") unconnected running

failed_refresh-ok_example :
    (request_refresh agreeing plain_repr
      (fails true "broken pipe")
      unconnected
      unconnected
      running).1
    ≡ record {
      ok = true;
      outcome = "refresh_requested";
      errors =
          failure plain_repr "pinfget" (String.◌++◌ "send failed: " "broken pipe")
          ∷ failure plain_repr "slvget" "not connected"
          ∷ failure plain_repr "pstget" "not connected"
          ∷ [];
      pinfget_sent = false;
      slvget_sent = false;
      pstget_sent = false;
      guest_host_refreshed = false;
    }
failed_refresh-ok_example =
    failed_refresh-ok agreeing plain_repr true "broken pipe" running refl refl refl

-- The soundbar is connected with an idle Cast app; then the app plays.
abbrev first_reports : List State.Event
first_reports =
    State.starts
    ∷ State.airplay_update "bar" none (some (pos 0))
    ∷ State.refresh 1 (record { app_id = some "CC1AD845"; volume = none; muted = none })
    ∷ State.media 1 (some "IDLE")
    ∷ State.airplay_removed "bar"
    ∷ []

abbrev idle_bar : State.Bar
idle_bar = State.run first_reports State.new_bar

soundbar_reports_example :
    (idle_bar.readings ≡ (heard first_reports new_heard).readings)
    × (idle_bar.derived ≡ said (heard first_reports new_heard))
    × ((State.step (State.media 1 (some "PLAYING")) idle_bar).signals
        ≡ idle_bar.signals
          ++ edge
              (is_first (State.media 1 (some "PLAYING")) idle_bar)
              idle_bar.derived.listen_active
              (State.step (State.media 1 (some "PLAYING")) idle_bar).derived)
soundbar_reports_example = soundbar_reports first_reports (State.media 1 (some "PLAYING"))

listens_once :
    (State.step (State.media 1 (some "PLAYING")) idle_bar).signals
    ≡ record { source = some "wifi"; playback_status = some "playing" } ∷ []
unfolding State.run
listens_once = refl
