-- ===== src/Tv/PowerOn.antt =====
-- pihub/samsung_tv.py, TvController.power_on: one attempt's worker that sends KEY_0 once, beside discovery,
-- the direct check and the wait for presence. The wake-on-LAN packets change no state here.
use pihub_remote_nrf.Prelude.{
  ℕ, suc, Bool, true, false, not, Option, none, some, List, ◌∷◌, ◌||◌, nat_eq, if◌then◌else◌,
}
use pihub_remote_nrf.Tv.Presence.{Tv, is_cached, commit_presence}
use pihub_remote_nrf.Tv.PowerOff.{give_key}

-- Where key_worker is: at the head of its loop, in ws.connect, in the wait before it tries again, or done.
pub data KeyWorker : Type 0 where
  looking connecting waiting ended : KeyWorker

pub record Attempt : Type 0 where
  pub attempt_id : ℕ
  pub stop_event : Bool
  pub key_sent : Bool
  pub key_worker : KeyWorker

-- The TV with the attempt that is under way.
pub record Power : Type 0 where
  pub tv : Tv
  pub attempt : Option Attempt
  -- The attempts that gave a key, the newest first.
  pub keyed : List ℕ

-- How power_on begins: it returns at once, waits for presence beside another, or makes an attempt.
pub data Begun : Type 0 where
  returns : Bool → Begun
  waits : Begun
  attempts : Begun

-- power_on, up to its wait
unfoldable pub power_on : Power → Power × Begun
power_on p =
    if not p.tv.has_session
    then (p, returns false)
    else if is_cached true p.tv.presence_cached
    then (record p { tv = record p.tv { presence_on = true } }, returns true)
    else if p.tv.power_on_active
    then (p, waits)
    else (
      record p {
        tv = record p.tv {
          power_on_active = true;
          power_on_attempt_id = suc p.tv.power_on_attempt_id;
        };
        attempt = some (record {
          attempt_id = suc p.tv.power_on_attempt_id;
          stop_event = false;
          key_sent = false;
          key_worker = looking;
        });
      },
      attempts,
    )

-- `stop_event.is_set() or self._presence_cached is True`
unfoldable pub is_over : Attempt → Tv → Bool
is_over a t = a.stop_event || is_cached true t.presence_cached

abbrev pub worker : KeyWorker → Attempt → Power → Power
worker w a p = record p { attempt = some (record a { key_worker = w }) }

-- From the check after the connecting to the key, without a wait in between.
unfoldable pub try_key : Bool → Attempt → Power → Power
unfolding is_over give_key
try_key ws_connected a p =
    if is_over a p.tv
    then worker ended a p
    else if not ws_connected
    then worker waiting a p
    else if not (nat_eq a.attempt_id p.tv.power_on_attempt_id) || a.key_sent
    then worker ended a p
    else record p {
      tv = give_key "KEY_0" p.tv;
      attempt = some (record a { key_sent = true; key_worker = ended });
      keyed = a.attempt_id ∷ p.keyed;
    }

-- The head of key_worker's loop.
unfoldable pub look : Attempt → Power → Power
unfolding is_over try_key
look a p =
    if is_over a p.tv
    then worker ended a p
    else if p.tv.ws_connected
    then try_key true a p
    else worker connecting a p

-- ws.connect ends: connected, not connected, or with an exception (`none`).
unfoldable pub connect_ended : Option Bool → Attempt → Power → Power
unfolding try_key
connect_ended none a p = worker waiting a p
connect_ended (some ok) a p = try_key ok a (record p { tv = record p.tv { ws_connected = ok } })

-- A probe of direct_check_worker ends.
unfoldable pub direct_check : Bool → Power → Power
unfolding commit_presence
direct_check probe_up p =
    if probe_up then record p { tv = (commit_presence true "probe_http_up" p.tv).0 } else p

-- The attempt's wait ends, with presence or without: its workers are told to stop, and cancelled.
unfoldable pub stop_workers : Attempt → Power → Power
stop_workers a p = record p { attempt = some (record a { stop_event = true }) }

-- The attempt's `finally`, once its workers have ended.
unfoldable pub finish : Power → Power
finish p = record p { tv = record p.tv { power_on_active = false }; attempt = none }
