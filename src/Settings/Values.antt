-- ===== src/Settings/Values.antt =====
-- pihub/settings.py: SettingsData and its getters. The numbered fields (stream_url_1 and so on) are
-- lists in the order of their numbers.
use Prim.Native.String.{◌++◌ as str_append}
use pihub_remote_nrf.Prelude.{
  ℕ, zero, suc, String, Bool, false, none, some, List, [], ◌∷◌, get_elem?,
}
use pihub_remote_nrf.Prelude.Text.{strip}
use pihub_remote_nrf.Prelude.Int.{pos}
use pihub_remote_nrf.Prelude.Json.{Fields, Value, int, str, bool, end, field}
use pihub_remote_nrf.Slots.{Settings, slot_text}

pub record SettingsData : Type 0 where
  pub watch_volume_pct : ℕ
  pub listen_volume_pct : ℕ
  pub listen_target_type : String
  pub listen_target_preset : ℕ
  pub listen_target_stream : ℕ
  pub stream_urls : List String
  pub soundbar_stream_urls : List String
  pub soundbar_restreams : List Bool

abbrev pub four : {A : Type 0} → A → List A
four a = a ∷ a ∷ a ∷ a ∷ []

abbrev pub ten : {A : Type 0} → A → List A
ten a = a ∷ a ∷ a ∷ a ∷ a ∷ a ∷ a ∷ a ∷ a ∷ a ∷ []

-- SettingsData()
abbrev pub defaults : SettingsData
defaults = record {
  watch_volume_pct = 0;
  listen_volume_pct = 0;
  listen_target_type = "preset";
  listen_target_preset = 1;
  listen_target_stream = 1;
  stream_urls = four "";
  soundbar_stream_urls = ten "";
  soundbar_restreams = ten false;
}

-- The name of a numbered field: f"{prefix}{n}"
abbrev pub numbered : String → ℕ → String
numbered prefix n = str_append prefix (slot_text n)

-- The fields of the numbers from n on, in front of the others.
unfoldable pub numbered_fields : {A : Type 0} → (A → Value) → String → ℕ → List A → Fields → Fields
unfolding slot_text
numbered_fields to prefix n [] rest = rest
numbered_fields to prefix n (a ∷ as') rest =
    field (numbered prefix n) (to a) (numbered_fields to prefix (suc n) as' rest)

-- asdict(data)
unfoldable pub to_fields : SettingsData → Fields
unfolding numbered_fields
to_fields d = field "watch_volume_pct" (int (pos d.watch_volume_pct)) (
    field "listen_volume_pct" (int (pos d.listen_volume_pct)) (
      field "listen_target_type" (str d.listen_target_type) (
        field "listen_target_preset" (int (pos d.listen_target_preset)) (
          field "listen_target_stream" (int (pos d.listen_target_stream)) (
            numbered_fields str "stream_url_" 1 d.stream_urls (
              numbered_fields str "soundbar_stream_url_" 1 d.soundbar_stream_urls
                (numbered_fields bool "soundbar_restream_" 1 d.soundbar_restreams end)))))))

-- getattr(data, f"..._{slot}", default)
unfoldable pub nth : {A : Type 0} → A → ℕ → List A → A
nth default zero xs = default
nth default (suc n) xs = elim (get_elem? xs n) [ none ↦ default | some a ↦ a ]

-- The getters of SettingsStore, as pihub/slots.py calls them.
unfoldable pub getters : SettingsData → Settings
unfolding nth strip
getters d = record {
  get_watch_volume_pct = d.watch_volume_pct;
  get_listen_volume_pct = d.listen_volume_pct;
  listen_target_type = d.listen_target_type;
  listen_target_preset = d.listen_target_preset;
  listen_target_stream = d.listen_target_stream;
  get_stream_url = λ slot. strip (nth "" slot d.stream_urls);
  get_soundbar_stream_url = λ slot. strip (nth "" slot d.soundbar_stream_urls);
  get_soundbar_restream = λ slot. nth false slot d.soundbar_restreams;
}
