-- ===== src/Tv/PowerOff.antt =====
-- pihub/samsung_tv.py, TvController.power_off.
use pihub_remote_nrf.Prelude.{String, Bool, true, false, not, List, [], ◌∷◌, ◌++◌, if◌then◌else◌}
use pihub_remote_nrf.Tv.Presence.{
  Tv, Notice, Answer, answers, raises, is_cached, commit_presence, notify_each, refresh_presence,
}

-- How the websocket takes a key: how connecting it ends, where it is not connected, and then how send_key
-- ends, with what discovery says meanwhile.
pub record Socket : Type 0 where
  pub connects : Answer
  pub connecting : List Notice
  pub sends : Answer
  pub sending : List Notice

-- The key is given to the websocket.
unfoldable pub give_key : String → Tv → Tv
give_key code t = record t {
  keys = t.keys ++ record { code = code; presence = t.presence_cached } ∷ [];
}

abbrev pub is_true : Answer → Bool
is_true (answers b) = b
is_true raises = false

-- The key, what discovery says while it is sent, and whether it was sent.
unfoldable pub send_key : String → Socket → Tv → Tv × Bool
unfolding give_key notify_each
send_key code socket t = (notify_each socket.sending (give_key code t), is_true socket.sends)

-- The one attempt to send KEY_POWER.
unfoldable pub send_power : Socket → Tv → Tv × Bool
unfolding send_key notify_each
send_power socket t =
    if t.ws_connected
    then send_key "KEY_POWER" socket t
    else (let t' = record (notify_each socket.connecting t) {
      ws_connected = is_true socket.connects;
    } in
        if is_true socket.connects then send_key "KEY_POWER" socket t' else (t', false))

-- A round of the loop: what the probe answers, and what discovery says while it waits.
pub record Round : Type 0 where
  pub probe : Answer
  pub meanwhile : List Notice

-- The rounds before the deadline, each with its probe and the sleep after it.
unfoldable pub await_off : List Round → Tv → Tv × Bool
unfolding notify_each commit_presence
await_off [] t = (t, false)
await_off (r ∷ rounds) t =
    let t' = notify_each r.meanwhile t in
    let rest = await_off rounds t' in
    if is_cached false t.presence_cached then (t, true) else elim r.probe [
      | answers false ↦ ((commit_presence false "probe_http_down" t').0, true)
      | answers true ↦ rest
      | raises ↦ rest
    ]

-- power_off
unfoldable pub power_off : Bool → Bool → List Notice → Socket → List Round → Tv → Tv × Bool
unfolding refresh_presence send_power await_off
power_off wait probe_up probing socket rounds t =
    if not t.has_session
    then (t, false)
    else (let t' = refresh_presence probe_up probing t in
        if is_cached false t'.presence_cached
        then (t', true)
        else (let (sent, ok) = send_power socket t' in
            if not wait then (sent, ok) else await_off rounds sent))
