-- ===== src/Slots.antt =====
-- pihub/slots.py: what the number keys and the listen flow play. The getters of SettingsStore that
-- it calls are the fields of `Settings`. Texts are matched against the TuneIn patterns in ASCII.
pub mod Listen
use Prim.Native.Char.{code}
use Prim.Native.String.{char_at}
use text.Mathlib.Text.{starts_with}
use pihub_remote_nrf.Prelude.{
  ℕ, zero, suc, ◌+◌, ◌-◌, String, Bool, true, false, not, Option, none, some, ◌==◌, ◌&&◌, ◌||◌,
  nat_eq, leb, if◌then◌else◌,
}
use pihub_remote_nrf.Prelude.Text.{strip, lower, is_empty, is_word, is_digit}

pub record Settings : Type 0 where
  pub get_watch_volume_pct : ℕ
  pub get_listen_volume_pct : ℕ
  pub listen_target_type : String
  pub listen_target_preset : ℕ
  pub listen_target_stream : ℕ
  pub get_stream_url : ℕ → String
  pub get_soundbar_stream_url : ℕ → String
  pub get_soundbar_restream : ℕ → Bool

-- [sgpt] with re.IGNORECASE, on a text in lower case.
abbrev is_kind : ℕ → Bool
is_kind c = nat_eq c b's' || nat_eq c b'g' || nat_eq c b'p' || nat_eq c b't'

all_digits : String → Bool
all_digits String.[] = true
all_digits (String.◌∷◌ c s) = is_digit (code c) && all_digits s

-- [sgpt]\d+ over the whole text.
is_id : String → Bool
unfolding all_digits is_empty
is_id String.[] = false
is_id (String.◌∷◌ c s) = is_kind (code c) && not (is_empty s) && all_digits s

-- \d*\b from here.
digits_then_edge : String → Bool
unfolding is_word
digits_then_edge String.[] = true
digits_then_edge (String.◌∷◌ c s) =
    let rest = digits_then_edge s in if is_digit (code c) then rest else not (is_word (code c))

-- [sgpt]\d+\b from here.
id_here : String → Bool
unfolding digits_then_edge
id_here (String.◌∷◌ c (String.◌∷◌ d s)) =
    is_kind (code c) && is_digit (code d) && digits_then_edge s
id_here _ = false

-- .*?\b[sgpt]\d+\b from here; the flag says that a word character came just before.
id_later : Bool → String → Bool
unfolding id_here is_word
id_later after_word String.[] = false
id_later after_word (String.◌∷◌ c s) =
    (not after_word && id_here (String.◌∷◌ c s))
    || (not (nat_eq (code c) 10) && id_later (is_word (code c)) s)

after_prefix : ℕ → String → String
after_prefix zero s = s
after_prefix (suc n) String.[] = String.[]
after_prefix (suc n) (String.◌∷◌ c s) = after_prefix n s

-- re.search of tunein\.com/.*?\b[sgpt]\d+\b
url_search : String → Bool
unfolding id_later after_prefix
url_search String.[] = false
url_search (String.◌∷◌ c s) =
    (starts_with (String.◌∷◌ c s) "tunein.com/"
      && id_later false (after_prefix 11 (String.◌∷◌ c s)))
    || url_search s

unfoldable pub is_tunein_source : String → Bool
unfolding is_id url_search lower strip after_prefix
is_tunein_source value =
    let raw = lower (strip value) in
    let bare = if starts_with raw "tunein:" then strip (after_prefix 7 raw) else raw in
    is_id bare || url_search bare

pub record SlotTarget : Type 0 where
  pub slot : ℕ
  pub preset : Option ℕ
  pub url : String
  pub restream : Bool

abbrev pub slot_count : ℕ
slot_count = 10

abbrev pub audiopro_preset_slots : ℕ
audiopro_preset_slots = 6

abbrev pub soundbar_backend : String
soundbar_backend = "samsung_soundbar"

-- `none` is the ValueError for a slot outside 1 to 10.
unfoldable pub resolve_slot : Settings → String → ℕ → Option SlotTarget
resolve_slot settings backend slot =
    if not (leb 1 slot && leb slot slot_count)
    then none
    else if backend == soundbar_backend
    then (let url = settings.get_soundbar_stream_url slot in
        some (record {
          slot = slot;
          preset = none;
          url = url;
          restream = settings.get_soundbar_restream slot || is_tunein_source url;
        }))
    else if leb slot audiopro_preset_slots
    then some (record { slot = slot; preset = some slot; url = ""; restream = false })
    else some (record {
      slot = slot;
      preset = none;
      url = settings.get_stream_url (slot - audiopro_preset_slots);
      restream = false;
    })

unfoldable pub listen_slot : Settings → String → ℕ
listen_slot settings backend =
    if backend == soundbar_backend
    then settings.listen_target_stream
    else if settings.listen_target_type == "preset"
    then settings.listen_target_preset
    else audiopro_preset_slots + settings.listen_target_stream

-- What play_slot asks of the speaker; `slot_empty` is SlotEmptyError.
pub data Play : Type 0 where
  preset_number : ℕ → Play
  play_url : String → Bool → Play
  slot_empty : ℕ → Play

unfoldable pub play_slot : SlotTarget → Play
play_slot target = elim target.preset [
  | some n ↦ preset_number n
  | none ↦
      if is_empty target.url then slot_empty target.slot else play_url target.url target.restream
]

-- f"{slot}", for a slot number.
unfoldable pub slot_text : ℕ → String
slot_text slot = if nat_eq slot 10 then "10" else String.◌∷◌ (char_at "0123456789" slot) String.[]
