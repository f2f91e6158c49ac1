-- ===== src/AudioPro/Reach.antt =====
-- pihub/audiopro_speaker.py: the speaker's state stays consistent in every order of payloads, commands, links,
-- refreshes and departures from a group.
use Prim.Native.String
use pihub_remote_nrf.Prelude.{
  ℕ, String, refl, Bool, false, not, Option, none, some, List, [], ◌∷◌, ◌==◌, if_cases,
  if◌then◌else◌,
}
use pihub_remote_nrf.Prelude.Int.{ℤ}
use pihub_remote_nrf.Prelude.Json.{Value, Fields}
use pihub_remote_nrf.Prelude.Result.{Result}
use pihub_remote_nrf.Prelude.Text.{strip, is_empty}
use pihub_remote_nrf.AudioPro.State.{
  Speaker, new_speaker, no_updates, plain, percent, apply_updates,
}
use pihub_remote_nrf.AudioPro.Payloads.{on_payload}
use pihub_remote_nrf.AudioPro.Commands.{
  Sending, goes, unconnected, fails, Outcome, mark_down, disconnect, send, note_error, send_control,
  require_control_sent, and_then, refresh_after, tcp_command, mcu_vol, louder, softer, is_true,
  step_volume, volume_up, volume_down, soft_unmuted, is_soft_muted, set_volume, soft_mute,
  is_muted_to, set_muted, mute_toggle, Command, message, command,
}
use pihub_remote_nrf.AudioPro.Multiroom.{
  World, http_cmd_text, get_multiroom_slave_list, hosts_ip, candidates, probe,
  find_multiroom_host_ip, set_host_ip, resolve_multiroom_host_ip, known_host, kickout, with_body,
  kicked, kickout_failed, retry_kickout, leave_guest, ungrouped, ungroup_failed, or_known,
  leave_native_multiroom_if_needed,
}
use pihub_remote_nrf.AudioPro.Link.{connect, cycle_failed, start, stop}
use pihub_remote_nrf.AudioPro.Consistent.{
  IsConsistent, Ok, updates-IsConsistent, on_payload-IsConsistent,
}

send-Ok : (how : Sending) (payload : String) (s : Speaker) → Ok s → Ok (send how payload s).0
unfolding send disconnect mark_down
send-Ok goes payload s k = k
send-Ok unconnected payload s k = k
send-Ok (fails written e) payload s k = record {
  volume = k.volume;
  physical = k.physical;
  hosting = k.hosting;
}

note-Ok : (x : Speaker × Option String) → Ok x.0 → Ok (note_error x).0
note-Ok (s, none) k = record { volume = k.volume; physical = k.physical; hosting = k.hosting }
note-Ok (s, some e) k = record { volume = k.volume; physical = k.physical; hosting = k.hosting }

require-Ok : (action : String) (x : Speaker × Bool) → Ok x.0 → Ok (require_control_sent action x).0
unfolding require_control_sent
require-Ok action (s, ok) k = if_cases (λ (o : Outcome). Ok o.0) ok k k

refresh-Ok : (delay : Option ℕ) (x : Outcome) → Ok x.0 → Ok (and_then (refresh_after delay) x).0
refresh-Ok none (s, Result.ok u) k = k
refresh-Ok (some d) (s, Result.ok u) k = k
refresh-Ok delay (s, Result.err e) k = k

tcp_command-Ok :
    (how : Sending) (payload action : String) (delay : Option ℕ) (s : Speaker)
    → Ok s
    → Ok (tcp_command how payload action delay s).0
unfolding tcp_command send_control
tcp_command-Ok how payload action delay s k =
    refresh-Ok delay (require_control_sent action (send_control how payload s)) (
      require-Ok action (send_control how payload s) (
        if_cases (λ (x : Speaker × Bool). Ok x.0) s.state.ready
          (note-Ok (send how payload s) (send-Ok how payload s k)) k))

step_volume-Ok :
    (next : ℕ → ℕ) (action : String) (how : Sending) (s : Speaker)
    → Ok s
    → Ok (step_volume next action how s).0
unfolding step_volume
step_volume-Ok next action how s k =
    if_cases (λ (o : Outcome). Ok o.0) (is_soft_muted s)
      (tcp_command-Ok how _ action none (soft_unmuted s)
        (record { volume = k.volume; physical = k.physical; hosting = k.hosting }))
      (tcp_command-Ok how _ action none s k)

muted-Ok :
    (target : Bool) (x : Outcome)
    → Ok x.0
    → Ok (and_then (apply_updates (record no_updates { muted = some target })) x).0
muted-Ok target (s, Result.ok u) k =
    updates-IsConsistent (record no_updates { muted = some target }) s k.physical k
muted-Ok target (s, Result.err e) k = k

set_muted-Ok : (how : Sending) (target : Bool) (s : Speaker) → Ok s → Ok (set_muted how target s).0
unfolding set_muted set_volume soft_mute
set_muted-Ok how target s k =
    let P = λ (o : Outcome). Ok o.0 in
    let u = record no_updates { muted = some target } in
    let told = String.◌++◌ "MCU+MUT+" (if target then "001" else "000") in
    let sent = tcp_command how told "set_muted" (some 250) s in
    if_cases P (plain s.state.source == "hdmi")
      (if_cases P target
        (tcp_command-Ok how _ "set_volume" none _
          (updates-IsConsistent u (soft_mute s) k.physical k))
        (tcp_command-Ok how _ "set_volume" none _
          (updates-IsConsistent u (record s { physical_muted = false }) k.physical k)))
      (if_cases P (is_muted_to target s.state.muted) k
        (muted-Ok target sent (tcp_command-Ok how told "set_muted" (some 250) s k)))

command-Ok : (c : Command) (how : Sending) (s : Speaker) → Ok s → Ok (command c how s).0
unfolding command
command-Ok c how s k = tcp_command-Ok how (message c).0 (message c).1 (message c).2 s k

probe-Ok :
    (w : World) (my_ip : String) (cs : List String) (s : Speaker) → Ok s → Ok (probe w my_ip cs s).0
unfolding probe get_multiroom_slave_list http_cmd_text
probe-Ok w my_ip [] s k = k
probe-Ok w my_ip (c ∷ cs) s k =
    let asked = (get_multiroom_slave_list w (some c) s).0 in
    if_cases (λ (x : Speaker × Option String). Ok x.0)
      (hosts_ip w my_ip (get_multiroom_slave_list w (some c) s).1)
      (record { volume = k.volume; physical = k.physical; hosting = k.hosting })
      (probe-Ok w my_ip cs asked
        (record { volume = k.volume; physical = k.physical; hosting = k.hosting }))

resolve-Ok :
    (w : World) (ips : List String) (s : Speaker) → Ok s → Ok (resolve_multiroom_host_ip w ips s).0
unfolding resolve_multiroom_host_ip find_multiroom_host_ip set_host_ip
resolve-Ok w ips s k =
    let c = probe-Ok w (strip s.speaker_ip) (candidates (strip s.speaker_ip) [] ips) s k in
    record { volume = c.volume; physical = c.physical; hosting = c.hosting }

known_host-Ok : (w : World) (ips : List String) (s : Speaker) → Ok s → Ok (known_host w ips s).0
unfolding known_host
known_host-Ok w ips s k = by_cached s.state.multiroom_host_ip
  where
    by_cached :
        (o : Option String)
        → Ok
            (elim o as (λ _. Speaker × Option String) [
              | none ↦ resolve_multiroom_host_ip w ips s
              | some ip ↦ if is_empty ip then resolve_multiroom_host_ip w ips s else (s, some ip)
            ]).0
    by_cached none = resolve-Ok w ips s k
    by_cached (some ip) =
        if_cases (λ (x : Speaker × Option String). Ok x.0) (is_empty ip) (resolve-Ok w ips s k) k

-- What follows a request, where it keeps the state consistent whatever the body is.
body-Ok :
    (k : Speaker → String → Speaker × Result String) (x : Speaker × Result String)
    → Ok x.0
    → ((body : String) → Ok (k x.0 body).0)
    → Ok (with_body k x).0
body-Ok k (s, Result.ok body) h next = next body
body-Ok k (s, Result.err e) h next = h

kickout-Ok : (w : World) (host : String) (s : Speaker) → Ok s → Ok (kickout w host s).0
unfolding kickout http_cmd_text
kickout-Ok w host s k = record { volume = k.volume; physical = k.physical; hosting = k.hosting }

kicked-Ok : (s : Speaker) → Ok s → Ok (kicked s).0
unfolding kicked
kicked-Ok s k = record { volume = k.volume; physical = k.physical; hosting = k.hosting }

retry-Ok :
    (w : World) (body : String) (x : Speaker × Option String)
    → Ok x.0
    → Ok (retry_kickout w body x).0
unfolding retry_kickout kickout_failed
retry-Ok w body (s, none) k = k
retry-Ok w body (s, some host) k =
    let t = (kickout w host s).0 in
    let kt = kickout-Ok w host s k in
    body-Ok (λ u again. if again == "OK" then kicked u else kickout_failed w again u)
      (kickout w host s) kt
      (λ again.
        if_cases (λ (x : Speaker × Result String). Ok x.0) (again == "OK") (kicked-Ok t kt) kt)

leave_guest-Ok :
    (w : World) (ips : List String) (x : Speaker × Option String)
    → Ok x.0
    → Ok (leave_guest w ips x).0
unfolding leave_guest set_host_ip
leave_guest-Ok w ips (s, none) k = k
leave_guest-Ok w ips (s, some host) k =
    let t = (kickout w host s).0 in
    let kt = kickout-Ok w host s k in
    let c =
      resolve-Ok w ips (set_host_ip none t)
        (record { volume = kt.volume; physical = kt.physical; hosting = kt.hosting }) in
    body-Ok
      (λ u body.
        if body == "OK"
        then kicked u
        else retry_kickout w body (resolve_multiroom_host_ip w ips (set_host_ip none u)))
      (kickout w host s) kt
      (λ body.
        if_cases (λ (x : Speaker × Result String). Ok x.0) (body == "OK") (kicked-Ok t kt)
          (retry-Ok w body (resolve_multiroom_host_ip w ips (set_host_ip none t)) c))

ungrouped-Ok : (s : Speaker) → Ok s → Ok (ungrouped s).0
unfolding ungrouped
ungrouped-Ok s k = record { volume = k.volume; physical = k.physical; hosting = refl }

ungroup_failed-Ok :
    (w : World) (body : String) (s : Speaker) → Ok s → Ok (ungroup_failed w body s).0
unfolding ungroup_failed
ungroup_failed-Ok w body s k = k

leave-Ok :
    (w : World) (given : Option (List String)) (s : Speaker)
    → Ok s
    → Ok (leave_native_multiroom_if_needed w given s).0
unfolding leave_native_multiroom_if_needed http_cmd_text
leave-Ok w given s k =
    let P = λ (x : Speaker × Result String). Ok x.0 in
    let ips = or_known given s in
    let t = (http_cmd_text w (none, "multiroom:Ungroup") s).0 in
    let kt : Ok t = record { volume = k.volume; physical = k.physical; hosting = k.hosting } in
    if_cases P s.state.multiroom_guest_active
      (leave_guest-Ok w ips (known_host w ips s) (known_host-Ok w ips s k))
      (if_cases P s.state.multiroom_host_active
        (body-Ok (λ u body. if body == "OK" then ungrouped u else ungroup_failed w body u)
          (http_cmd_text w (none, "multiroom:Ungroup") s) kt
          (λ body. if_cases P (body == "OK") (ungrouped-Ok t kt) (ungroup_failed-Ok w body t kt)))
        k)

-- A step of the driver: a payload, a command, the departure from a group, or a change of the link.
pub data Step : Speaker → Speaker → Type 0 where
  on_a_payload :
      (loads : String → Option Fields) (str_of : Value → String) (payload : String) (s : Speaker)
      → Step s (on_payload loads str_of payload s)
  turns_up : (how : Sending) (s : Speaker) → Step s (volume_up how s).0
  turns_down : (how : Sending) (s : Speaker) → Step s (volume_down how s).0
  sets_volume : (how : Sending) (pct : ℤ) (s : Speaker) → Step s (set_volume how pct s).0
  mutes : (how : Sending) (target : Bool) (s : Speaker) → Step s (set_muted how target s).0
  toggles : (how : Sending) (s : Speaker) → Step s (mute_toggle how s).0
  commands : (c : Command) (how : Sending) (s : Speaker) → Step s (command c how s).0
  leaves :
      (w : World) (given : Option (List String)) (s : Speaker)
      → Step s (leave_native_multiroom_if_needed w given s).0
  resolves :
      (w : World) (ips : List String) (s : Speaker) → Step s (resolve_multiroom_host_ip w ips s).0
  connects : (made : Bool) (s : Speaker) → Step s (connect made s)
  fails_cycle : (e : String) (s : Speaker) → Step s (cycle_failed e s)
  starts : (s : Speaker) → Step s (start s)
  stops : (s : Speaker) → Step s (stop s)

pub data Reach (s : Speaker) : Speaker → Type 0 where
  here : Reach s s
  next : {t u : Speaker} → Reach s t → Step t u → Reach s u

step-Ok : (s t : Speaker) → Step s t → Ok s → Ok t
unfolding volume_up volume_down set_volume mute_toggle connect cycle_failed mark_down disconnect
    start stop
step-Ok _ _ (on_a_payload loads str_of payload s) k =
    on_payload-IsConsistent loads str_of payload s k
step-Ok _ _ (turns_up how s) k = step_volume-Ok louder "volume_up" how s k
step-Ok _ _ (turns_down how s) k = step_volume-Ok softer "volume_down" how s k
step-Ok _ _ (sets_volume how pct s) k =
    tcp_command-Ok how (mcu_vol (percent pct)) "set_volume" none s k
step-Ok _ _ (mutes how target s) k = set_muted-Ok how target s k
step-Ok _ _ (toggles how s) k = set_muted-Ok how (not (is_true s.state.muted)) s k
step-Ok _ _ (commands c how s) k = command-Ok c how s k
step-Ok _ _ (leaves w given s) k = leave-Ok w given s k
step-Ok _ _ (resolves w ips s) k = resolve-Ok w ips s k
step-Ok _ _ (connects made s) k = record {
  volume = k.volume;
  physical = k.physical;
  hosting = k.hosting;
}
step-Ok _ _ (fails_cycle e s) k = record {
  volume = k.volume;
  physical = k.physical;
  hosting = k.hosting;
}
step-Ok _ _ (starts s) k =
    if_cases Ok s.asking.enabled k
      (record { volume = k.volume; physical = k.physical; hosting = k.hosting })
step-Ok _ _ (stops s) k = record { volume = k.volume; physical = k.physical; hosting = k.hosting }

reach-Ok : (s t : Speaker) → Reach s t → Ok s → Ok t
reach-Ok s _ here k = k
reach-Ok s _ (next {t} {u} r e) k = step-Ok t u e (reach-Ok s t r k)

-- From a new speaker on, in every order of its payloads, of commands (sent, dropped or failing), of departures
-- from and lookups in groups, of connections made, refused and lost, and of starts and stops: the volume is at
-- most 100 percent, a physical input (HDMI, optical, line-in, Bluetooth) has no playback status, and the speaker
-- hosts a group exactly where it counts a guest.
pub reachable-IsConsistent :
    (ip : String) (known : List String) (s : Speaker)
    → Reach (new_speaker ip known) s
    → IsConsistent s.state
reachable-IsConsistent ip known s r =
    reach-Ok (new_speaker ip known) s r (record { volume = tt; physical = refl; hosting = refl })
