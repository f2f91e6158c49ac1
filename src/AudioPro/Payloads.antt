-- ===== src/AudioPro/Payloads.antt =====
-- pihub/audiopro_speaker.py: what the speaker's payloads change (_on_payload and its handlers). `loads` is
-- json.loads of a text in braces, with no value for its ValueError; `str_of` is str of a value that is no text.
use Prim.Native.String.{len, slice}
use pihub_remote_nrf.Prelude.{
  ℕ, String, Bool, true, false, not, Option, none, some, [], ◌==◌, ◌&&◌, ◌||◌, ltb, if◌then◌else◌,
}
use pihub_remote_nrf.Prelude.Int.{ℤ, pos, parse_int}
use pihub_remote_nrf.Prelude.Json.{Value, Fields, get_field, text_value}
use pihub_remote_nrf.Prelude.Text.{
  strip, lower, is_empty, last_part, without_end, zfill, all_digits,
}
use pihub_remote_nrf.InitialStatus.{mark_received}
use text.Mathlib.Text.{starts_with}
use pihub_remote_nrf.AudioPro.Asking.{pinfget_hint_delay, ply_hint_delay, request_pinfget}
use pihub_remote_nrf.AudioPro.State.{
  Speaker, Updates, no_updates, apply_updates, is_physical, or_keep,
}

-- _PLM_TO_SOURCE.get(mode)
unfoldable pub plm_to_source : String → Option String
plm_to_source mode =
    if mode == "000"
    then some "idle"
    else if mode == "040"
    then some "line-in"
    else if mode == "041"
    then some "bluetooth"
    else if mode == "043"
    then some "optical"
    else if mode == "049"
    then some "hdmi"
    else if mode == "001"
    then some "airplay"
    else if mode == "099"
    then some "multiroom-secondary"
    else if mode == "002"
        || mode == "010"
        || mode == "011"
        || mode == "020"
        || mode == "031"
        || mode == "032"
    then some "wifi"
    else none

-- payload.strip().split("+")[-1]
unfoldable pub code_of : String → String
unfolding last_part strip
code_of payload = last_part b'+' (strip payload)

abbrev pub hinted : ℕ → Speaker → Speaker
hinted delay s = record s { asking = request_pinfget delay s.asking }

unfoldable pub handle_vol : String → Speaker → Speaker
unfolding code_of apply_updates parse_int
handle_vol p s = elim (parse_int (code_of p)) [
  | none ↦ s
  | some vol ↦ apply_updates (record no_updates { volume_pct = some vol }) s
]

-- What _handle_plm gives to _apply_updates, by the source of the mode.
abbrev pub plm_updates : String → Updates
plm_updates source =
    let given = record no_updates { source = some (some source); source_detail = some none } in
    if is_physical source then record given { playback_status = some none } else given

unfoldable pub handle_plm : String → Speaker → Speaker
unfolding code_of plm_to_source apply_updates zfill strip
handle_plm p s =
    let source = or_keep (plm_to_source (zfill 3 (strip (code_of p)))) "unknown" in
    hinted pinfget_hint_delay (apply_updates (plm_updates source) s)

unfoldable pub handle_ply : String → Speaker → Speaker
unfolding code_of strip
handle_ply p s =
    let code = strip (code_of p) in
    if code == "000" || code == "001" then hinted ply_hint_delay s else s

abbrev pub set_powered : Bool → Speaker → Speaker
set_powered on s = record s { state = record s.state { powered_on = some on } }

unfoldable pub handle_pms : String → Speaker → Speaker
unfolding code_of
handle_pms p s =
    let code = code_of p in
    let woken = if code == "000" then set_powered true s else s in
    if code == "000" || code == "001" then hinted pinfget_hint_delay woken else woken

unfoldable pub handle_pow : String → Speaker → Speaker
unfolding code_of strip
handle_pow p s = if strip (code_of p) == "001" then set_powered false s else s

unfoldable pub handle_pst : String → Speaker → Speaker
unfolding code_of strip
handle_pst p s =
    let code = strip (code_of p) in
    if code == "000" || code == "001"
    then set_powered true s
    else if code == "003"
    then set_powered false s
    else s

-- int(code) of a code of digits.
abbrev pub count_of : Option ℤ → Option ℕ
count_of (some (pos n)) = some n
count_of _ = none

unfoldable pub handle_slv : String → Speaker → Speaker
unfolding code_of strip all_digits parse_int
handle_slv p s =
    let code = strip (code_of p) in
    if not (is_empty code) && all_digits code
    then elim (count_of (parse_int code)) [
      | none ↦ s
      | some n ↦ record s {
        state = record s.state { multiroom_slave_count = n; multiroom_host_active = ltb 0 n };
      }
    ]
    else if code == "NOT"
    then record s { state = record s.state { multiroom_host_ip = none } }
    else s

-- _request_multiroom_guest_host_refresh
unfoldable pub request_host_refresh : Speaker → Speaker
request_host_refresh s = if not s.asking.enabled then s else elim s.known_speaker_ips [
  | [] ↦ s
  | _ ↦
      if not s.state.multiroom_guest_active || s.host_ip_pending
      then s
      else record s { host_ip_pending = true }
]

pub record Info : Type 0 where
  pub type : String
  pub mode : String
  pub vendor : String
  pub status : String
  pub vol : String
  pub mute : String

-- str(data.get(key, "")).strip()
unfoldable pub text_at : (Value → String) → String → Fields → String
unfolding get_field text_value strip
text_at str_of key fields =
    strip (elim (get_field key fields) [ none ↦ "" | some v ↦ text_value str_of v ])

abbrev pub info_of : (Value → String) → Fields → Info
info_of str_of fields = record {
  type = text_at str_of "type" fields;
  mode = zfill 3 (text_at str_of "mode" fields);
  vendor = text_at str_of "vendor" fields;
  status = lower (text_at str_of "status" fields);
  vol = text_at str_of "vol" fields;
  mute = text_at str_of "mute" fields;
}

-- raw.endswith("}")
abbrev pub ends_brace : String → Bool
ends_brace raw = not (without_end b'}' raw == raw)

unfoldable pub parse_ply_inf_json :
    (String → Option Fields) → (Value → String) → String → Option Info
unfolding strip without_end text_at zfill lower
parse_ply_inf_json loads str_of payload =
    let p = without_end b'&' (strip payload) in
    let raw = strip (slice p 11 (len p)) in
    if not (starts_with p "AXX+PLY+INF")
    then none
    else if not (starts_with raw "{" && ends_brace raw)
    then none
    else elim (loads raw) [ none ↦ none | some fields ↦ some (info_of str_of fields) ]

abbrev pub text_or_unknown : Option String → String
text_or_unknown none = "unknown"
text_or_unknown (some s) = if is_empty s then "unknown" else s

abbrev pub muted_of : String → Option Bool
muted_of mute = if mute == "0" then some false else if mute == "1" then some true else none

-- The guest state that a status reports.
unfoldable pub set_guest : Bool → Speaker → Speaker
unfolding request_host_refresh
set_guest guest s =
    let changed = record s { state = record s.state { multiroom_guest_active = guest } } in
    if guest
    then if s.state.multiroom_guest_active then s else request_host_refresh changed
    else if s.state.multiroom_guest_active
    then record changed {
      host_ip_pending = false;
      state = record changed.state { multiroom_host_ip = none };
    }
    else s

unfoldable pub info_source : Info → Speaker → String
unfolding plm_to_source
info_source info s = or_keep (plm_to_source info.mode) (text_or_unknown s.state.source)

-- multiroom_guest_active, by the source.
abbrev pub is_guest : String → Info → Bool
is_guest source info = source == "multiroom-secondary" && info.type == "1"

-- What _handle_ply_inf gives to _apply_updates, by the source. An active guest can report "stop".
unfoldable pub info_updates : String → Info → Updates
unfolding parse_int
info_updates source info = record {
  source = some (some source);
  source_detail = some (if is_empty info.vendor then none else some info.vendor);
  playback_status = some (
      if is_physical source
      then none
      else if is_guest source info
      then some "play"
      else some info.status);
  volume_pct = parse_int info.vol;
  muted = muted_of info.mute;
  ready = some true;
}

-- _handle_ply_inf once the payload is parsed.
unfoldable pub take_info : Info → Speaker → Speaker
unfolding info_source info_updates apply_updates set_guest
take_info info s =
    let source = info_source info s in
    let settled = set_guest (is_guest source info) (apply_updates (info_updates source info) s) in
    if s.state.ready then settled else record settled { initial = mark_received settled.initial }

unfoldable pub handle_ply_inf :
    (String → Option Fields) → (Value → String) → String → Speaker → Speaker
unfolding parse_ply_inf_json take_info
handle_ply_inf loads str_of p s = elim (parse_ply_inf_json loads str_of p) [
  | none ↦ s
  | some info ↦ take_info info s
]

unfoldable pub on_payload : (String → Option Fields) → (Value → String) → String → Speaker → Speaker
unfolding strip without_end handle_vol handle_plm handle_ply_inf handle_pms handle_pow handle_pst
    handle_slv handle_ply
on_payload loads str_of payload s =
    let p = without_end b'&' (strip payload) in
    if starts_with p "AXX+VOL+"
    then handle_vol p s
    else if starts_with p "AXX+MUT+"
    then hinted pinfget_hint_delay s
    else if starts_with p "AXX+PLM+"
    then handle_plm p s
    else if starts_with p "AXX+PLY+INF"
    then handle_ply_inf loads str_of p s
    else if starts_with p "AXX+PMS+"
    then handle_pms p s
    else if starts_with p "AXX+POW+"
    then handle_pow p s
    else if starts_with p "AXX+PST+"
    then handle_pst p s
    else if starts_with p "AXX+SLV+"
    then handle_slv p s
    else if starts_with p "AXX+PLY+NEW" || starts_with p "AXX+KEY+"
    then hinted pinfget_hint_delay s
    else if starts_with p "AXX+PLY+"
    then handle_ply p s
    else if starts_with p "AXX+I2S+" || starts_with p "AXX+BT+"
    then hinted pinfget_hint_delay s
    else s
