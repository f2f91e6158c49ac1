-- ===== src/Tv/Presence.antt =====
-- pihub/samsung_tv.py, TvController: what is known of the TV's presence and from where. The websocket
-- is whether it is connected, and the keys given to send_key. Answers of the network are arguments, as are
-- the notices that come in while a coroutine waits for one. Log lines and times are not modelled.
use text.Mathlib.Text.{starts_with}
use pihub_remote_nrf.Prelude.{
  String, Bool, true, false, not, Option, none, some, List, [], ◌∷◌, ◌++◌, ◌==◌, ◌&&◌, ◌||◌, ℕ,
  if◌then◌else◌,
}
use pihub_remote_nrf.Prelude.Text.{is_empty}
use pihub_remote_nrf.InitialStatus
use pihub_remote_nrf.InitialStatus.{InitialStatus, mark_received}

-- A key given to send_key, with the presence known at that moment.
pub record Key : Type 0 where
  pub code : String
  pub presence : Option Bool

pub record Tv : Type 0 where
  pub has_session : Bool
  pub presence_cached : Option Bool
  pub presence_source : String
  -- `_presence_on_event`
  pub presence_on : Bool
  pub power_on_active : Bool
  pub power_on_attempt_id : ℕ
  pub ws_connected : Bool
  pub initial : InitialStatus
  pub keys : List Key

-- __init__, and start's session
abbrev pub new_tv : Tv
new_tv = record {
  has_session = true;
  presence_cached = none;
  presence_source = "unknown";
  presence_on = false;
  power_on_active = false;
  power_on_attempt_id = 0;
  ws_connected = false;
  initial = InitialStatus.init;
  keys = [];
}

-- `self._presence_cached is b`
abbrev pub is_cached : Bool → Option Bool → Bool
is_cached b none = false
is_cached true (some p) = p
is_cached false (some p) = not p

-- _commit_presence, with whether it changed anything
unfoldable pub commit_presence : Bool → String → Tv → Tv × Bool
unfolding mark_received
commit_presence on source t =
    if is_cached on t.presence_cached then (record t { presence_on = on }, false) else (
      record t {
        presence_cached = some on;
        presence_source = source;
        presence_on = on;
        initial = mark_received t.initial;
      },
      true,
    )

-- `part in s`, for a part that is not empty
unfoldable pub contains : String → String → Bool
contains part String.[] = false
contains part (String.◌∷◌ c s) =
    let rest = contains part s in starts_with (String.◌∷◌ c s) part || rest

abbrev is_elsewhere : Option String → Bool
is_elsewhere none = false
is_elsewhere (some location) = not (is_empty location) && not (contains "/dmr" location)

abbrev is_renderer : Option String → Bool
is_renderer none = false
is_renderer (some location) = contains "/dmr" location

-- notify_msearch
unfoldable pub notify_msearch : Option String → Tv → Tv
unfolding commit_presence contains is_empty
notify_msearch location t =
    if is_elsewhere location then t else (commit_presence true "msearch" t).0

-- notify_ssdp
unfoldable pub notify_ssdp : String → String → Option String → Tv → Tv
unfolding commit_presence contains
notify_ssdp nts nt location t =
    if not (is_renderer location || contains "MediaRenderer" nt)
    then t
    else if nts == "ssdp:alive"
    then (commit_presence true "ssdp_alive" t).0
    else if nts == "ssdp:byebye"
    then (commit_presence false "ssdp_byebye" t).0
    else t

-- What the other tasks do while a coroutine waits: discovery says something, or the websocket is dropped by
-- _rx_loop's end or connected by the task that _connect_ws or msearch_bootstrap leaves.
pub data Notice : Type 0 where
  msearch : Option String → Notice
  ssdp : String → String → Option String → Notice
  ws_changes : Bool → Notice

unfoldable pub notify : Notice → Tv → Tv
unfolding notify_msearch notify_ssdp
notify (msearch location) t = notify_msearch location t
notify (ssdp nts nt location) t = notify_ssdp nts nt location t
notify (ws_changes connected) t = record t { ws_connected = connected }

unfoldable pub notify_each : List Notice → Tv → Tv
unfolding notify
notify_each [] t = t
notify_each (n ∷ ns) t = notify_each ns (notify n t)

-- refresh_presence: the probe is made only of a TV that is thought to be on.
unfoldable pub refresh_presence : Bool → List Notice → Tv → Tv
unfolding notify_each commit_presence
refresh_presence probe_up meanwhile t =
    if not t.has_session || not (is_cached true t.presence_cached)
    then t
    else (let t' = notify_each meanwhile t in
        if probe_up then t' else (commit_presence false "probe_http_down" t').0)

-- How a request ends: with its answer, or raising.
pub data Answer : Type 0 where
  answers : Bool → Answer
  raises : Answer

-- Whether reconcile_presence finds the TV, and what it adds to its errors; `search_fails` says whether
-- the search raised, the lists what discovery says during the search, the connecting and the probe.
pub record Reconciled : Type 0 where
  pub tv : Tv
  pub present : Bool
  pub errors : List String

abbrev found : List String → Bool → List Notice → Tv → Reconciled
found errors connect_fails connecting t = record {
  tv = notify_each connecting t;
  present = true;
  errors = if connect_fails then errors ++ "ws_connect_failed" ∷ [] else errors;
}

abbrev lost : List String → Tv → Reconciled
lost errors t = record {
  tv = (commit_presence false "probe_http_down" t).0;
  present = false;
  errors = errors;
}

-- reconcile_presence, with a session; the errors are their first words.
unfoldable pub reconcile_presence :
    Bool → List Notice → Answer → List Notice → Bool → List Notice → Tv → Reconciled
unfolding notify_each commit_presence
reconcile_presence search_fails searching probe probing connect_fails connecting t =
    let t' = notify_each searching t in
    let errors = if search_fails then "msearch_bootstrap_failed" ∷ [] else [] in
    if is_cached true t'.presence_cached
    then found errors connect_fails connecting t'
    else elim probe [
      | answers true ↦
          found errors connect_fails connecting
            (commit_presence true "probe_http_up" (notify_each probing t')).0
      | answers false ↦ lost errors (notify_each probing t')
      | raises ↦ lost (errors ++ "http_probe_failed" ∷ []) (notify_each probing t')
    ]
