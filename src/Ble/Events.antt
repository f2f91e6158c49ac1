-- ===== src/Ble/Events.antt =====
-- pihub/ble_dongle.py: what a line from the dongle does to the link's state (_handle_line,
-- _handle_evt, _handle_status). The log lines are not modelled, nor are the labels and parameters
-- kept for them.
use Prim.Native.Char.{code}
use text.Mathlib.Text.{starts_with}
use pihub_remote_nrf.Prelude.{
  String, Bool, true, false, Option, none, some, List, [], ◌∷◌, ◌==◌, ◌&&◌, ◌||◌, not, nat_eq,
  if◌then◌else◌,
}
use pihub_remote_nrf.Prelude.Text.{strip, split, cut_at, is_empty, is_space, is_word}
use pihub_remote_nrf.Prelude.Dict
use pihub_remote_nrf.Prelude.Dict.{Dict}
use pihub_remote_nrf.Prelude.Int.{ℤ, pos, is_one, is_nonzero, parse_int}
use pihub_remote_nrf.InitialStatus
use pihub_remote_nrf.Ble.Link.{Link, ConnParams}

unfoldable pub set_advertising : Bool → Link → Link
set_advertising on l = record l { state = record l.state { advertising = on } }

unfoldable pub set_connected : Bool → Link → Link
set_connected true l = record l {
  state = record l.state { connected = true; last_disc_reason = none };
}
set_connected false l = record l {
  state = record l.state { connected = false; ready = false; conn_params = none };
}

unfoldable pub set_ready : Bool → Link → Link
set_ready true l = record l { state = record l.state { ready = true; connected = true } }
set_ready false l = record l { state = record l.state { ready = false } }

unfoldable pub set_error : Option ℤ → Link → Link
set_error none l = l
set_error (some n) l =
    if is_one n
    then record l { state = record l.state { error = true }; last_error = some "evt_err" }
    else record l { state = record l.state { error = false }; last_error = none }

-- The last token that begins with `reason=` wins.
unfoldable pub disc_reason : List String → Option String → Option String
disc_reason [] r = r
disc_reason (tok ∷ toks) r =
    disc_reason toks
      (elim (cut_at b'=' tok) [ none ↦ r | some (k, v) ↦ if k == "reason" then some v else r ])

-- The `key=value` tokens, later ones winning.
unfoldable pub pairs : List String → Dict String → Dict String
pairs [] kv = kv
pairs (tok ∷ toks) kv =
    pairs toks
      (elim (cut_at b'=' tok) [ none ↦ kv | some (k, v) ↦ Dict.put (strip k) (strip v) kv ])

-- int(kv.get(name, "0") or 0)
unfoldable pub int_or_zero : Option String → Option ℤ
int_or_zero none = some (pos 0)
int_or_zero (some s) = if is_empty s then some (pos 0) else parse_int s

unfoldable pub conn_params_of : Option ℤ → Option ℤ → Option ℤ → Option ConnParams
conn_params_of (some i) (some l) (some t) =
    some (record { interval_ms = i; latency = l; timeout_ms = t })
conn_params_of _ _ _ = none

unfoldable pub set_conn_params : Option ConnParams → Link → Link
set_conn_params none l = l
set_conn_params (some p) l = record l { state = record l.state { conn_params = some p } }

unfoldable pub evt_parts : List String → Link → Link
unfolding set_advertising set_connected set_ready set_error set_conn_params disc_reason pairs
    int_or_zero conn_params_of
evt_parts (evt ∷ src ∷ arg ∷ rest) l =
    if src == "ADV"
    then set_advertising (arg == "1") l
    else if src == "CONN"
    then set_connected (arg == "1") l
    else if src == "READY"
    then set_ready (arg == "1") l
    else if src == "ERR"
    then set_error (parse_int arg) l
    else if src == "DISC"
    then record l {
      state = record l.state {
        last_disc_reason = disc_reason (arg ∷ rest) l.state.last_disc_reason;
      };
    }
    else if src == "CONN_PARAMS"
    then (let kv = pairs (arg ∷ rest) [] in
        set_conn_params
          (conn_params_of (int_or_zero (Dict.get "interval_ms" kv))
            (int_or_zero (Dict.get "latency" kv)) (int_or_zero (Dict.get "timeout_ms" kv)))
          l)
    else l
evt_parts _ l = l

unfoldable pub handle_evt : String → Link → Link
unfolding evt_parts
handle_evt line l = evt_parts (split line) l

-- _i: int(kv.get(name, "0")), and 0 where that is no number.
int_of : Option String → ℤ
int_of none = pos 0
int_of (some s) = elim (parse_int s) [ none ↦ pos 0 | some z ↦ z ]

unfoldable pub drop_first : List String → List String
drop_first [] = []
drop_first (w ∷ ws) = ws

unfoldable pub status_values : Dict String → Link → Link
unfolding int_of InitialStatus.mark_received
status_values kv l =
    let connected = is_one (int_of (Dict.get "conn" kv)) in
    let interval_ms = int_of (Dict.get "interval_ms" kv) in
    let latency = int_of (Dict.get "latency" kv) in
    let timeout_ms = int_of (Dict.get "timeout_ms" kv) in
    record l {
      state = record l.state {
        advertising = is_one (int_of (Dict.get "adv" kv));
        connected = connected;
        ready = connected && is_one (int_of (Dict.get "ready" kv));
        sec = int_of (Dict.get "sec" kv);
        error = is_one (int_of (Dict.get "err" kv));
        conn_params =
            if connected && (is_nonzero interval_ms || is_nonzero latency || is_nonzero timeout_ms)
            then some
                (record { interval_ms = interval_ms; latency = latency; timeout_ms = timeout_ms })
            else none;
      };
      initial = InitialStatus.mark_received l.initial;
    }

unfoldable pub handle_status : String → Link → Link
unfolding status_values drop_first pairs
handle_status line l = status_values (pairs (drop_first (split line)) []) l

-- (\S+) at the start of a text, as far as it goes.
unspaced : String → String
unfolding is_space
unspaced String.[] = String.[]
unspaced (String.◌∷◌ c s) =
    let rest = unspaced s in if is_space (code c) then String.[] else String.◌∷◌ c rest

-- `fw=(\S+)` at the start of a text.
fw_here : String → Option String
fw_here (String.◌∷◌ f (String.◌∷◌ w (String.◌∷◌ e s))) =
    if nat_eq (code f) b'f'
      && nat_eq (code w) b'w'
      && nat_eq (code e) b'='
      && not (is_empty (unspaced s))
    then some (unspaced s)
    else none
fw_here _ = none

-- re.search(r"\bfw=(\S+)", line); the flag says that a word character came just before.
search_fw : Bool → String → Option String
search_fw after_word String.[] = none
search_fw after_word (String.◌∷◌ c s) =
    let rest = search_fw (is_word (code c)) s in
    if after_word then rest else elim (fw_here (String.◌∷◌ c s)) [ none ↦ rest | some fw ↦ some fw ]

unfoldable pub handle_info : String → Link → Link
unfolding is_word unspaced fw_here search_fw
handle_info line l = elim (search_fw false line) [
  | none ↦ l
  | some fw ↦ record l { firmware = some fw }
]

unfoldable pub handle_line : String → Link → Link
unfolding handle_evt handle_status handle_info
handle_line line l =
    if line == "PONG"
    then record l { transport_evt = true }
    else if line == "OK"
    then l
    else if starts_with line "BUSY"
    then l
    else if starts_with line "ERR"
    then record l { state = record l.state { error = true }; last_error = some line }
    else if starts_with line "EVT "
    then handle_evt line l
    else if starts_with line "STATUS "
    then handle_status line l
    else if starts_with line "INFO "
    then handle_info line l
    else l
