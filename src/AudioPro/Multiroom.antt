-- ===== src/AudioPro/Multiroom.antt =====
-- pihub/audiopro_speaker.py: native multiroom over the HTTP API (_find_multiroom_host_ip,
-- resolve_multiroom_host_ip, refresh_multiroom_guest_host_ip, leave_native_multiroom_if_needed), and the commands
-- of that API. What a request answers is an argument: a stripped body, or an error; no payload of the speaker
-- arrives while a request waits.
use Prim.Native.String
use pihub_remote_nrf.Prelude.{
  String, Bool, false, not, Option, none, some, List, [], ◌∷◌, ◌++◌, ◌==◌, ◌||◌, if◌then◌else◌,
}
use pihub_remote_nrf.Prelude.Json.{
  Value, Fields, Items, obj, arr, nil, cons, get_field, text_value, str,
}
use pihub_remote_nrf.Prelude.Result.{Result}
use pihub_remote_nrf.Prelude.Text.{strip, is_empty}
use pihub_remote_nrf.AudioPro.Asking.{request_pinfget}
use pihub_remote_nrf.AudioPro.State.{Speaker}

-- target_ip, and the command.
abbrev pub Request : Type 0
Request = Option String × String

-- Python's json.loads, str and repr; and the network, by the requests before this one.
pub record World : Type 0 where
  pub loads : String → Option Value
  pub str_of : Value → String
  pub repr : Value → String
  pub answer : List Request → Request → Result String

-- _http_cmd_text
unfoldable pub http_cmd_text : World → Request → Speaker → Speaker × Result String
http_cmd_text w r s = (record s { requests = s.requests ++ r ∷ [] }, w.answer s.requests r)

-- What _http_cmd_json makes of the body.
unfoldable pub json_of : World → String → Result String → Result Fields
json_of w cmd (Result.err e) = Result.err e
json_of w cmd (Result.ok body) = elim (w.loads body) [
  | none ↦ Result.err (
      String.◌++◌ "httpapi invalid json for "
        (String.◌++◌ cmd (String.◌++◌ ": " (w.repr (str body)))))
  | some (obj fields) ↦ Result.ok fields
  | some v ↦
      Result.err
        (String.◌++◌ "httpapi unexpected json for " (String.◌++◌ cmd (String.◌++◌ ": " (w.repr v))))
]

unfoldable pub get_multiroom_slave_list : World → Option String → Speaker → Speaker × Result Fields
unfolding http_cmd_text json_of
get_multiroom_slave_list w target s =
    let answered = http_cmd_text w (target, "multiroom:getSlaveList") s in
    (answered.0, json_of w "multiroom:getSlaveList" answered.1)

unfoldable pub is_one_of : String → List String → Bool
is_one_of x [] = false
is_one_of x (y ∷ ys) = let rest = is_one_of x ys in x == y || rest

-- The candidates: stripped, none empty, none this speaker's own, each once.
unfoldable pub candidates : String → List String → List String → List String
unfolding strip is_empty is_one_of
candidates my_ip seen [] = []
candidates my_ip seen (ip ∷ ips) =
    let c = strip ip in
    let skipped = is_empty c || c == my_ip || is_one_of c seen in
    let rest = candidates my_ip (if skipped then seen else c ∷ seen) ips in
    if skipped then rest else c ∷ rest

-- str(item.get("ip", "")).strip()
unfoldable pub item_ip : (Value → String) → Fields → String
unfolding get_field text_value strip
item_ip str_of item =
    strip (elim (get_field "ip" item) [ none ↦ "" | some v ↦ text_value str_of v ])

unfoldable pub lists_ip : (Value → String) → String → Items → Bool
unfolding item_ip
lists_ip str_of my_ip nil = false
lists_ip str_of my_ip (cons (obj item) items) =
    let rest = lists_ip str_of my_ip items in item_ip str_of item == my_ip || rest
lists_ip str_of my_ip (cons _ items) = lists_ip str_of my_ip items

-- Whether a slave list has this speaker.
unfoldable pub hosts_ip : World → String → Result Fields → Bool
unfolding lists_ip get_field
hosts_ip w my_ip (Result.err e) = false
hosts_ip w my_ip (Result.ok fields) = elim (get_field "slave_list" fields) [
  | some (arr items) ↦ lists_ip w.str_of my_ip items
  | _ ↦ false
]

unfoldable pub probe : World → String → List String → Speaker → Speaker × Option String
unfolding get_multiroom_slave_list hosts_ip
probe w my_ip [] s = (s, none)
probe w my_ip (c ∷ cs) s =
    let answered = get_multiroom_slave_list w (some c) s in
    let later = probe w my_ip cs answered.0 in
    if hosts_ip w my_ip answered.1 then (answered.0, some c) else later

unfoldable pub find_multiroom_host_ip : World → List String → Speaker → Speaker × Option String
unfolding probe candidates strip
find_multiroom_host_ip w ips s =
    let my_ip = strip s.speaker_ip in probe w my_ip (candidates my_ip [] ips) s

unfoldable pub set_host_ip : Option String → Speaker → Speaker
set_host_ip ip s = record s { state = record s.state { multiroom_host_ip = ip } }

unfoldable pub resolve_multiroom_host_ip : World → List String → Speaker → Speaker × Option String
unfolding find_multiroom_host_ip set_host_ip
resolve_multiroom_host_ip w ips s =
    let found = find_multiroom_host_ip w ips s in (set_host_ip found.1 found.0, found.1)

unfoldable pub refresh_multiroom_guest_host_ip :
    World → List String → Speaker → Speaker × Option String
unfolding resolve_multiroom_host_ip set_host_ip
refresh_multiroom_guest_host_ip w ips s =
    if s.state.multiroom_guest_active
    then resolve_multiroom_host_ip w ips s
    else (set_host_ip none s, none)

-- _run_scheduled_multiroom_guest_host_refresh after its sleep.
unfoldable pub run_host_refresh : World → Speaker → Speaker
unfolding refresh_multiroom_guest_host_ip
run_host_refresh w s =
    let refreshed = (refresh_multiroom_guest_host_ip w s.known_speaker_ips s).0 in
    let over = λ (x : Speaker). record x { host_ip_pending = false } in
    if not s.asking.enabled || not s.state.multiroom_guest_active
    then over s
    else elim s.known_speaker_ips [ [] ↦ over s | _ ↦ over refreshed ]

abbrev pub or_known : Option (List String) → Speaker → List String
or_known none s = s.known_speaker_ips
or_known (some ips) s = ips

-- `host_ip or await self.resolve_multiroom_host_ip(speaker_ips)`
unfoldable pub known_host : World → List String → Speaker → Speaker × Option String
unfolding resolve_multiroom_host_ip is_empty
known_host w ips s =
    let resolved = resolve_multiroom_host_ip w ips s in
    elim s.state.multiroom_host_ip [
      | none ↦ resolved
      | some ip ↦ if is_empty ip then resolved else (s, some ip)
    ]

unfoldable pub kickout : World → String → Speaker → Speaker × Result String
unfolding http_cmd_text
kickout w host s = http_cmd_text w (some host, String.◌++◌ "multiroom:SlaveKickout:" s.speaker_ip) s

-- The body of a request that did not raise.
abbrev pub with_body :
    (Speaker → String → Speaker × Result String) → Speaker × Result String → Speaker × Result String
with_body k (s, Result.err e) = (s, Result.err e)
with_body k (s, Result.ok body) = k s body

unfoldable pub kicked : Speaker → Speaker × Result String
unfolding request_pinfget
kicked s = (
  record s {
    state = record s.state { multiroom_guest_active = false; multiroom_host_ip = none };
    asking = request_pinfget 500 s.asking;
  },
  Result.ok "guest_kicked",
)

unfoldable pub kickout_failed : World → String → Speaker → Speaker × Result String
kickout_failed w body s =
    (s, Result.err (String.◌++◌ "multiroom_slave_kickout_failed:" (w.repr (str body))))

-- The retry, at the host that a new discovery finds.
unfoldable pub retry_kickout : World → String → Speaker × Option String → Speaker × Result String
unfolding kickout kickout_failed kicked
retry_kickout w body (s, none) = kickout_failed w body s
retry_kickout w body (s, some host) =
    with_body (λ t again. if again == "OK" then kicked t else kickout_failed w again t)
      (kickout w host s)

unfoldable pub leave_guest : World → List String → Speaker × Option String → Speaker × Result String
unfolding kickout kicked retry_kickout resolve_multiroom_host_ip set_host_ip
leave_guest w ips (s, none) = (s, Result.err "multiroom_host_not_found_for_guest")
leave_guest w ips (s, some host) =
    with_body
      (λ t body.
        if body == "OK"
        then kicked t
        else retry_kickout w body (resolve_multiroom_host_ip w ips (set_host_ip none t)))
      (kickout w host s)

unfoldable pub ungrouped : Speaker → Speaker × Result String
unfolding request_pinfget
ungrouped s = (
  record s {
    state = record s.state { multiroom_host_active = false; multiroom_slave_count = 0 };
    asking = request_pinfget 500 s.asking;
  },
  Result.ok "host_ungrouped",
)

unfoldable pub ungroup_failed : World → String → Speaker → Speaker × Result String
ungroup_failed w body s =
    (s, Result.err (String.◌++◌ "multiroom_ungroup_failed:" (w.repr (str body))))

unfoldable pub leave_native_multiroom_if_needed :
    World → Option (List String) → Speaker → Speaker × Result String
unfolding leave_guest known_host http_cmd_text ungrouped ungroup_failed
leave_native_multiroom_if_needed w given s =
    let ips = or_known given s in
    if s.state.multiroom_guest_active
    then leave_guest w ips (known_host w ips s)
    else if s.state.multiroom_host_active
    then with_body (λ t body. if body == "OK" then ungrouped t else ungroup_failed w body t)
        (http_cmd_text w (none, "multiroom:Ungroup") s)
    else (s, Result.ok "noop")
