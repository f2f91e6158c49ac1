-- ===== src/Examples/TvRuns.antt =====
-- Runs of pihub/samsung_tv.py.
use pihub_remote_nrf.Prelude.{◌≡◌, refl, true, false, none, some, List, [], ◌∷◌, ◌||◌}
use pihub_remote_nrf.Tv.Presence.{
  Tv, new_tv, Notice, ssdp, ws_changes, answers, raises, is_cached, reconcile_presence,
  refresh_presence,
}
use pihub_remote_nrf.Tv.PowerOff.{Socket, Round, power_off}
use pihub_remote_nrf.Tv.PowerOn.{Power, Attempt, connecting, looking, power_on, look, connect_ended}
use pihub_remote_nrf.Tv.OneKey
use pihub_remote_nrf.Tv.OneKey.{IsOnce, at_start, calls, looks, connects, keyed-IsOnce}
use pihub_remote_nrf.Tv.OffKey.{AtMostOne, power_off-AtMostOne}
use pihub_remote_nrf.Tv.FirstReading.{IsRead, reconcile_presence-IsRead}

-- Switching on: the worker connects the websocket, and gives its key.
abbrev begun : Power
begun = (power_on at_start).0

abbrev first : Attempt
first = record { attempt_id = 1; stop_event = false; key_sent = false; key_worker = looking }

abbrev looked : Power
looked = look first begun

abbrev keyed : Power
keyed = connect_ended (some true) (record first { key_worker = connecting }) looked

keyed_once : keyed.keyed ≡ 1 ∷ []
unfolding power_on look connect_ended
keyed_once = refl

keyed-IsOnce_example : IsOnce keyed
unfolding power_on look connect_ended
keyed-IsOnce_example = keyed-IsOnce keyed (
    OneKey.next
      (OneKey.next (OneKey.next OneKey.here (calls at_start)) (looks first begun refl refl))
      (connects (some true) (record first { key_worker = connecting }) looked refl refl))

abbrev watched : Tv
watched = record new_tv { presence_cached = some true }

abbrev byebye : Notice
byebye = ssdp "ssdp:byebye" "MediaRenderer" none

-- The TV says good-bye while the websocket is being connected.
abbrev slow_socket : Socket
slow_socket = record {
  connects = answers true;
  connecting = byebye ∷ [];
  sends = answers true;
  sending = [];
}

abbrev one_round : List Round
one_round = record { probe = answers false; meanwhile = [] } ∷ []

-- The toggle is then given to a TV that is known to be off.
toggles_known_off :
    (power_off true true [] slow_socket one_round watched).0.keys
    ≡ record { code = "KEY_POWER"; presence = some false } ∷ []
unfolding power_off
toggles_known_off = refl

-- So it is where the websocket was connected at first and drops while the presence is probed.
abbrev linked : Tv
linked = record watched { ws_connected = true }

abbrev dropping : List Notice
dropping = ws_changes false ∷ []

drops_and_toggles :
    (power_off true true dropping slow_socket one_round linked).0.keys
    ≡ record { code = "KEY_POWER"; presence = some false } ∷ []
unfolding power_off
drops_and_toggles = refl

power_off-AtMostOne_example :
    AtMostOne
      (refresh_presence true dropping linked).ws_connected
      linked
      (power_off true true dropping slow_socket one_round linked).0
power_off-AtMostOne_example = power_off-AtMostOne true true dropping slow_socket one_round linked

reconcile_presence-IsRead_example :
    let r = reconcile_presence true [] raises (byebye ∷ []) false [] new_tv in
    IsRead r.tv × ((r.present || is_cached false r.tv.presence_cached) ≡ true)
reconcile_presence-IsRead_example =
    reconcile_presence-IsRead true [] raises (byebye ∷ []) false [] new_tv (record { reads = refl })
