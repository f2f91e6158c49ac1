-- ===== src/Settings/Valid.antt =====
-- pihub/settings.py: what holds of settings that were validated, and so of every store.
use pihub_remote_nrf.Prelude.{
  ℕ, ◌≤◌, String, ◌≡◌, refl, ◌⊎◌, inr, Bool, true, false, ◌==◌, ◌||◌, arith, length, All, subst,
  if◌then◌else◌,
}
use pihub_remote_nrf.Prelude.Text.{is_empty, lower}
use pihub_remote_nrf.Prelude.Json.{Fields, Value}
use pihub_remote_nrf.Prelude.Result.{Holds, bind-Holds}
use pihub_remote_nrf.Settings.Values.{SettingsData}
use pihub_remote_nrf.Settings.Validate.{
  int_in_range, is_stream_url, is_soundbar_url, check_all, str_field, renamed, str_fields, assemble,
  stream_in_range, target_type, validate,
}
use pihub_remote_nrf.Settings.Checks.{
  IsUrl, IsChecked, Holds-of, Holds-map, known_kind_lem, check_all_lem, Stripped-IsUrl,
  int_in_range_lem, stream_in_range_lem, length-str_fields, length-bool_fields, str_fields-Stripped,
}

pub record IsValid (d : SettingsData) : Type 0 where
  pub watch : d.watch_volume_pct ≤ 100
  pub listen : d.listen_volume_pct ≤ 100
  pub kind : (d.listen_target_type ≡ "preset") ⊎ (d.listen_target_type ≡ "stream")
  pub preset : (1 ≤ d.listen_target_preset) × (d.listen_target_preset ≤ 6)
  pub stream : (1 ≤ d.listen_target_stream) × (d.listen_target_stream ≤ 10)
  pub four_urls : length d.stream_urls ≡ 4
  pub ten_urls : length d.soundbar_stream_urls ≡ 10
  pub ten_restreams : length d.soundbar_restreams ≡ 10
  pub urls : All (IsUrl is_stream_url) d.stream_urls
  pub soundbar_urls : All (IsUrl is_soundbar_url) d.soundbar_stream_urls

-- The stream bound of the backend is at most ten.
wide_le : (wide : Bool) (n : ℕ) → n ≤ (if wide then 10 else 4) → n ≤ 10
wide_le true n h = h
wide_le false n h = omega arith

kind_of :
    (soundbar : Bool) (k : String)
    → (k ≡ "preset") ⊎ (k ≡ "stream")
    → ((if soundbar then "stream" else k) ≡ "preset")
      ⊎ ((if soundbar then "stream" else k) ≡ "stream")
kind_of true k h = inr refl
kind_of false k h = h

module _ (str_of : Value → String) (raw : Fields) where
  assemble-IsValid :
      (soundbar wide : Bool) (kind : String) (watch listen preset stream : ℕ) (d : SettingsData)
      → (kind ≡ "preset") ⊎ (kind ≡ "stream")
      → watch ≤ 100
      → listen ≤ 100
      → (1 ≤ preset) × (preset ≤ 6)
      → (1 ≤ stream) × (stream ≤ (if wide then 10 else 4))
      → IsChecked (assemble str_of soundbar raw kind watch listen preset stream) d
      → IsValid d
  unfolding assemble
  assemble-IsValid soundbar wide kind watch listen preset stream d k w l p s (same, urls, more) =
      subst IsValid same (record {
        watch = w;
        listen = l;
        kind = kind_of soundbar kind k;
        preset = p;
        stream = (s.0, wide_le wide stream s.1);
        four_urls = length-str_fields str_of "stream_url_" 4 1 raw;
        ten_urls = length-str_fields str_of "soundbar_stream_url_" 10 1 raw;
        ten_restreams = length-bool_fields "soundbar_restream_" 10 1 raw;
        urls =
            Stripped-IsUrl is_stream_url (str_fields str_of "stream_url_" 4 1 raw)
              (str_fields-Stripped str_of "stream_url_" 4 1 raw) urls;
        soundbar_urls =
            Stripped-IsUrl is_soundbar_url (str_fields str_of "soundbar_stream_url_" 10 1 raw)
              (str_fields-Stripped str_of "soundbar_stream_url_" 10 1 raw) more;
      })

  -- Settings that validate are in range, have a known listen type, and have four and ten URLs, each
  -- stripped and empty or of a kind that its player takes.
  pub validate-IsValid : (backend : String) → Holds IsValid (validate str_of backend raw)
  unfolding validate target_type
  validate-IsValid backend =
      let wide = backend == "samsung_soundbar" || is_empty backend in
      bind-Holds IsValid (target_type str_of raw) _ (λ kind e0.
        bind-Holds IsValid (int_in_range "watch_volume_pct" 0 100 "0 and 100" 0 raw) _ (λ watch e1.
          bind-Holds IsValid (int_in_range "listen_volume_pct" 0 100 "0 and 100" 0 raw) _
            (λ listen e2.
              bind-Holds IsValid (int_in_range "listen_target_preset" 1 6 "1 and 6" 1 raw) _
                (λ preset e3. bind-Holds IsValid (stream_in_range wide raw) _ (λ stream e4.
                  let d =
                    assemble str_of (backend == "samsung_soundbar") raw kind watch listen preset
                      stream in
                  Holds-map (IsChecked d) IsValid (check_all backend d)
                    (λ d' c.
                      assemble-IsValid (backend == "samsung_soundbar") wide kind watch listen preset
                        stream d'
                        (Holds-of (λ k. (k ≡ "preset") ⊎ (k ≡ "stream")) _ kind e0
                          (known_kind_lem
                            (renamed (lower (str_field str_of "listen_target_type" "preset" raw)))))
                        (Holds-of (λ n. (0 ≤ n) × (n ≤ 100)) _ watch e1
                          (int_in_range_lem "watch_volume_pct" 0 100 "0 and 100" 0 raw)).1
                        (Holds-of (λ n. (0 ≤ n) × (n ≤ 100)) _ listen e2
                          (int_in_range_lem "listen_volume_pct" 0 100 "0 and 100" 0 raw)).1
                        (Holds-of (λ n. (1 ≤ n) × (n ≤ 6)) _ preset e3
                          (int_in_range_lem "listen_target_preset" 1 6 "1 and 6" 1 raw))
                        (Holds-of (λ n. (1 ≤ n) × (n ≤ (if wide then 10 else 4))) _ stream e4
                          (stream_in_range_lem wide raw))
                        c)
                    (check_all_lem backend d))))))
