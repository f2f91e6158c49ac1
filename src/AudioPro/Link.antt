-- ===== src/AudioPro/Link.antt =====
-- pihub/audiopro_speaker.py: the link's life (start, stop, _connect, _runner's cycle, _wait_ready) and request_refresh.
use pihub_remote_nrf.Prelude.{
  String, Bool, true, false, not, Option, none, some, List, [], ◌∷◌, ◌++◌, ◌&&◌, ◌||◌,
  if◌then◌else◌,
}
use Prim.Native.String
use pihub_remote_nrf.InitialStatus.{mark_failed}
use pihub_remote_nrf.AudioPro.Asking.{cancel_pending_pinfget}
use pihub_remote_nrf.AudioPro.State.{Speaker}
use pihub_remote_nrf.AudioPro.Commands.{Sending, send, mark_down, disconnect}
use pihub_remote_nrf.AudioPro.Multiroom.{World, refresh_multiroom_guest_host_ip}

abbrev pub enable : Bool → Speaker → Speaker
enable b s = record s { asking = record s.asking { enabled = b } }

unfoldable pub start : Speaker → Speaker
start s = if s.asking.enabled then s else enable true s

-- The pending tasks are cancelled with _disconnect; `stop` cancels them before it too.
unfoldable pub stop : Speaker → Speaker
unfolding disconnect cancel_pending_pinfget
stop s =
    let off = enable false s in
    disconnect (record off { asking = cancel_pending_pinfget off.asking; host_ip_pending = false })

-- _connect, where the connection is made, and where it is not.
unfoldable pub connect : Bool → Speaker → Speaker
connect made s = record s {
  state = record s.state { last_error = none; reachable = made; connected = made; ready = false };
}

-- What _runner does with an exception of the cycle, and in its `finally`.
unfoldable pub cycle_failed : String → Speaker → Speaker
unfolding mark_down disconnect mark_failed
cycle_failed e s =
    let down = mark_down e s in disconnect (record down { initial = mark_failed down.initial })

-- The questions at the start of a cycle, in order, up to the first that raises.
unfoldable pub ask_all : List (Sending × String) → Speaker → Speaker × Option String
unfolding send
ask_all [] s = (s, none)
ask_all ((how, payload) ∷ qs) s =
    let sent = send how payload s in
    let later = ask_all qs sent.0 in elim sent.1 [ none ↦ later | some e ↦ (sent.0, some e) ]

-- One cycle of _runner up to _wait_ready: how the connection goes, then the three questions.
unfoldable pub begin_cycle : Option String → Sending → Sending → Sending → Speaker → Speaker
unfolding connect ask_all cycle_failed
begin_cycle (some e) a b c s = cycle_failed e (connect false s)
begin_cycle none a b c s =
    let asked =
      ask_all ((a, "MCU+PST+GET") ∷ (b, "MCU+PINFGET") ∷ (c, "MCU+SLV+GET") ∷ [])
        (connect true s) in
    elim asked.1 [ none ↦ asked.0 | some e ↦ cycle_failed e asked.0 ]

-- A round of _wait_ready: it returns, raises, or waits on.
pub data Wait : Type 0 where
  is_ready times_out waits_on : Wait

unfoldable pub wait_ready : Bool → Speaker → Wait
wait_ready time_over s =
    if not s.asking.enabled || s.state.ready
    then is_ready
    else if time_over
    then times_out
    else waits_on

pub record Refresh : Type 0 where
  pub ok : Bool
  pub outcome : String
  pub errors : List String
  pub pinfget_sent : Bool
  pub slvget_sent : Bool
  pub pstget_sent : Bool
  pub guest_host_refreshed : Bool

abbrev pub failure : (String → String) → String → String → String
failure repr name e = String.◌++◌ name (String.◌++◌ "_failed:" (repr e))

-- A question of request_refresh: the state after it, whether it was sent, and the errors with its own.
unfoldable pub refresh_question :
    (String → String)
    → String
    → Sending
    → String
    → Speaker × List String
    → (Speaker × List String) × Bool
unfolding send
refresh_question repr name how payload (s, errors) =
    let sent = send how payload s in
    elim sent.1 [
      | none ↦ ((sent.0, errors), true)
      | some e ↦ ((sent.0, errors ++ failure repr name e ∷ []), false)
    ]

abbrev pub noted : Bool → Speaker → Speaker
noted b s = if b then record s { asking = record s.asking { last_pinfget = s.asking.now } } else s

-- The three questions, where the link is connected: the state, the errors, and which were sent.
unfoldable pub refresh_questions :
    (String → String)
    → Sending
    → Sending
    → Sending
    → Speaker
    → (Speaker × List String) × (Bool × Bool × Bool)
unfolding refresh_question
refresh_questions repr a b c s =
    let one = refresh_question repr "pinfget" a "MCU+PINFGET" (s, []) in
    let two = refresh_question repr "slvget" b "MCU+SLV+GET" (noted one.1 one.0.0, one.0.1) in
    let three = refresh_question repr "pstget" c "MCU+PST+GET" two.0 in
    if s.state.connected
    then (three.0, (one.1, two.1, three.1))
    else ((s, []), (false, false, false))

abbrev pub has_any : List String → Bool
has_any [] = false
has_any (x ∷ xs) = true

abbrev pub refused_refresh : String → List String → Refresh
refused_refresh outcome errors = record {
  ok = false;
  outcome = outcome;
  errors = errors;
  pinfget_sent = false;
  slvget_sent = false;
  pstget_sent = false;
  guest_host_refreshed = false;
}

-- The guest's host is looked up.
abbrev pub looks_up : Speaker → Bool
looks_up t = t.state.multiroom_guest_active && has_any t.known_speaker_ips

unfoldable pub look_up_host : World → Speaker → Speaker
unfolding refresh_multiroom_guest_host_ip
look_up_host w t =
    if looks_up t then (refresh_multiroom_guest_host_ip w t.known_speaker_ips t).0 else t

-- What request_refresh returns, by whether the link is connected at the end.
unfoldable pub refresh_answer : Bool → List String → Bool × Bool × Bool → Bool → Refresh
refresh_answer connected errors (pinfget, slvget, pstget) refreshed =
    if connected && not (pinfget || slvget || pstget)
    then refused_refresh "refresh_failed" errors
    else record {
      ok = true;
      outcome = "refresh_requested";
      errors = errors;
      pinfget_sent = pinfget;
      slvget_sent = slvget;
      pstget_sent = pstget;
      guest_host_refreshed = refreshed;
    }

-- request_refresh, by how its three questions go; `repr` is repr of the ConnectionError with this text.
unfoldable pub request_refresh :
    World → (String → String) → Sending → Sending → Sending → Speaker → Speaker × Refresh
unfolding refresh_questions look_up_host refresh_answer
request_refresh w repr a b c s =
    let asked = refresh_questions repr a b c s in
    let u = look_up_host w asked.0.0 in
    if s.asking.enabled
    then (u, refresh_answer u.state.connected asked.0.1 asked.1 (looks_up asked.0.0))
    else (s, refused_refresh "unavailable" ("speaker_disabled" ∷ []))
