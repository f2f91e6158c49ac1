-- ===== src/Settings/Validate.antt =====
-- pihub/settings.py, SettingsStore._validate_payload. The text is that of the ValueError.
use Prim.Native.String.{◌++◌ as str_append}
use text.Mathlib.Text.{starts_with}
use pihub_remote_nrf.Prelude.{
  ℕ, zero, suc, ◌%◌, String, Bool, false, not, Option, none, some, List, [], ◌∷◌, ◌==◌, ◌&&◌, ◌||◌,
  leb, if◌then◌else◌,
}
use pihub_remote_nrf.Prelude.Text.{strip, lower, is_empty}
use pihub_remote_nrf.Prelude.Int.{pos, negsuc}
use pihub_remote_nrf.Prelude.Json.{
  Fields, Value, str, get_field, truthy, to_int, IntResult, text_value,
}
use pihub_remote_nrf.Prelude.Result.{Result, ok, err, ◌>>=◌, ◌>>◌, unless}
use pihub_remote_nrf.Slots.{slot_text, is_tunein_source}
use pihub_remote_nrf.Settings.Values.{SettingsData, numbered, nth}

unfoldable pub in_range : String → ℕ → ℕ → String → IntResult → Result ℕ
in_range name lo hi range (IntResult.err _) = err (str_append name " must be an integer")
in_range name lo hi range (IntResult.ok (negsuc n)) =
    err (str_append name (str_append " must be between " range))
in_range name lo hi range (IntResult.ok (pos n)) =
    if leb lo n && leb n hi
    then ok n
    else err (str_append name (str_append " must be between " range))

-- _int_in_range; `range` is f"{lo} and {hi}".
unfoldable pub int_in_range : String → ℕ → ℕ → String → ℕ → Fields → Result ℕ
unfolding in_range get_field to_int
int_in_range name lo hi range default raw =
    in_range name lo hi range
      (elim (get_field name raw) [ none ↦ IntResult.ok (pos default) | some v ↦ to_int v ])

unfoldable pub bool_of : Value → Bool
unfolding truthy strip lower
bool_of (str s) =
    let word = lower (strip s) in word == "1" || word == "true" || word == "yes" || word == "on"
bool_of v = truthy v

-- _bool, with the default False
unfoldable pub bool_field : String → Fields → Bool
unfolding bool_of get_field
bool_field name raw = elim (get_field name raw) [ none ↦ false | some v ↦ bool_of v ]

-- value.startswith(("http://", "https://"))
unfoldable pub is_http : String → Bool
is_http value = starts_with value "http://" || starts_with value "https://"

unfoldable pub is_stream_url : String → Bool
unfolding is_http is_empty
is_stream_url value = is_empty value || is_http value

unfoldable pub is_soundbar_url : String → Bool
unfolding is_http is_empty
is_soundbar_url value = is_empty value || is_http value || is_tunein_source value

-- The loops over the URLs, from number n on.
unfoldable pub check_stream_urls : ℕ → List String → Result (Unit {0})
unfolding is_stream_url slot_text
check_stream_urls n [] = ok tt
check_stream_urls n (url ∷ urls) =
    unless (is_stream_url url)
      (str_append (numbered "stream_url_" n) " must start with http:// or https://")
    >> check_stream_urls (suc n) urls

unfoldable pub check_soundbar_urls : ℕ → List String → Result (Unit {0})
unfolding is_soundbar_url slot_text
check_soundbar_urls n [] = ok tt
check_soundbar_urls n (url ∷ urls) =
    unless (is_soundbar_url url) (
      str_append (str_append "Key " (slot_text (n % 10)))
        " stream URL must start with http:// or https://, or be a TuneIn station ID or tunein.com URL")
    >> check_soundbar_urls (suc n) urls

-- The listen target must have a URL; checked where the backend is known.
unfoldable pub check_listen : String → SettingsData → Result (Unit {0})
unfolding nth is_empty slot_text
check_listen backend d =
    if backend == "samsung_soundbar"
    then unless (not (is_empty (nth "" d.listen_target_stream d.soundbar_stream_urls))) (
        str_append (str_append "Listen flow plays stream slot " (slot_text d.listen_target_stream))
          (str_append (str_append ", but Key " (slot_text (d.listen_target_stream % 10)))
            " stream URL is empty"))
    else unless
        (is_empty backend
          || not (d.listen_target_type == "stream")
          || not (is_empty (nth "" d.listen_target_stream d.stream_urls)))
        (str_append
          (str_append "listen_target_stream points to empty "
            (numbered "stream_url_" d.listen_target_stream))
          "; set a URL or choose preset")

unfoldable pub check_all : String → SettingsData → Result SettingsData
unfolding check_stream_urls check_soundbar_urls check_listen
check_all backend d =
    check_stream_urls 1 d.stream_urls
    >> (check_soundbar_urls 1 d.soundbar_stream_urls >> (check_listen backend d >> ok d))

-- The retired type "tunein" is a stream.
abbrev pub renamed : String → String
renamed kind = if kind == "tunein" then "stream" else kind

unfoldable pub bool_fields : String → ℕ → ℕ → Fields → List Bool
unfolding bool_field slot_text
bool_fields prefix zero n raw = []
bool_fields prefix (suc count) n raw =
    bool_field (numbered prefix n) raw ∷ bool_fields prefix count (suc n) raw

-- listen_target_stream, up to the number of streams that there are.
unfoldable pub stream_in_range : Bool → Fields → Result ℕ
unfolding int_in_range
stream_in_range wide raw =
    if wide
    then int_in_range "listen_target_stream" 1 10 "1 and 10" 1 raw
    else int_in_range "listen_target_stream" 1 4 "1 and 4" 1 raw

unfoldable pub known_kind : String → Result String
known_kind kind =
    if kind == "preset" || kind == "stream"
    then ok kind
    else err "listen_target_type must be 'preset' or 'stream'"

module _ (str_of : Value → String) where
  -- str(raw.get(name, default) or "")
  unfoldable pub raw_text : String → String → Fields → String
  unfolding get_field truthy text_value
  raw_text name default raw = elim (get_field name raw) [
    | none ↦ default
    | some v ↦ if truthy v then text_value str_of v else ""
  ]

  -- _str
  unfoldable pub str_field : String → String → Fields → String
  unfolding raw_text strip
  str_field name default raw = strip (raw_text name default raw)

  -- The fields of `count` numbers from n on.
  unfoldable pub str_fields : String → ℕ → ℕ → Fields → List String
  unfolding str_field slot_text
  str_fields prefix zero n raw = []
  str_fields prefix (suc count) n raw =
      str_field (numbered prefix n) "" raw ∷ str_fields prefix count (suc n) raw

  -- The listen target's type, before the soundbar's rule.
  unfoldable pub target_type : Fields → Result String
  unfolding str_field lower known_kind
  target_type raw = known_kind (renamed (lower (str_field "listen_target_type" "preset" raw)))

  -- The record `out`, from the fields that are checked one by one.
  unfoldable pub assemble : Bool → Fields → String → ℕ → ℕ → ℕ → ℕ → SettingsData
  unfolding bool_field str_fields bool_fields slot_text
  assemble is_soundbar raw kind watch listen preset stream = record {
    watch_volume_pct = watch;
    listen_volume_pct = listen;
    listen_target_type = if is_soundbar then "stream" else kind;
    listen_target_preset = preset;
    listen_target_stream = stream;
    stream_urls = str_fields "stream_url_" 4 1 raw;
    soundbar_stream_urls = str_fields "soundbar_stream_url_" 10 1 raw;
    soundbar_restreams = bool_fields "soundbar_restream_" 10 1 raw;
  }

  -- _validate_payload, for a backend that was stripped and put in lower case.
  unfoldable pub validate : String → Fields → Result SettingsData
  unfolding int_in_range target_type assemble check_all
  validate backend raw = do
    kind ← target_type raw
    watch ← int_in_range "watch_volume_pct" 0 100 "0 and 100" 0 raw
    listen ← int_in_range "listen_volume_pct" 0 100 "0 and 100" 0 raw
    preset ← int_in_range "listen_target_preset" 1 6 "1 and 6" 1 raw
    stream ← stream_in_range (backend == "samsung_soundbar" || is_empty backend) raw
    check_all backend (assemble (backend == "samsung_soundbar") raw kind watch listen preset stream)

  -- _validate_payload
  unfoldable pub validate_payload : Option String → Fields → Result SettingsData
  unfolding validate strip lower
  validate_payload none raw = validate "" raw
  validate_payload (some backend) raw = validate (lower (strip backend)) raw
