-- ===== src/Settings/Roundtrip.antt =====
-- pihub/settings.py: what _write_locked writes, load reads back.
use pihub_remote_nrf.Prelude.{
  ℕ, suc, ◌≤◌, String, ◌≡◌, refl, ap, ◌∙◌, ◌⊎◌, inl, inr, Bool, true, false, not, List, [], ◌∷◌,
  arith, length, All, if◌then◌else◌,
}
use pihub_remote_nrf.Prelude.Text.{strip, is_empty, lower, lstrip, rstrip, is_space}
use pihub_remote_nrf.Prelude.Json.{
  Fields, Value, get_field, put_field, to_int, truthy, text_value, obj, holds,
}
use pihub_remote_nrf.Prelude.Result.{Result, ok, err}
use pihub_remote_nrf.Slots.{slot_text}
use pihub_remote_nrf.Settings.Values.{SettingsData, defaults, to_fields, numbered_fields}
use pihub_remote_nrf.Settings.Validate.{
  int_in_range, in_range, stream_in_range, is_stream_url, is_soundbar_url, check_stream_urls,
  check_soundbar_urls, check_listen, check_all, raw_text, str_field, str_fields, bool_of,
  bool_field, bool_fields, known_kind, target_type, assemble, validate,
}
use pihub_remote_nrf.Settings.Store.{
  merge, has_field, known_fields, from_dict, salvage, load, load_value,
}
use pihub_remote_nrf.Settings.Checks.{IsUrl}
use pihub_remote_nrf.Settings.Valid.{IsValid}

-- A stripped text is read back as itself.
kept : (u : String) → strip u ≡ u → strip (if not (is_empty u) then u else "") ≡ u
unfolding is_empty strip lstrip rstrip
kept String.[] h = refl
kept (String.◌∷◌ c s) h = h

module _ (str_of : Value → String) (w l p s : ℕ) (k : String) (a b c d : String)
    (a1 a2 a3 a4 a5 a6 a7 a8 a9 a10 : String) (b1 b2 b3 b4 b5 b6 b7 b8 b9 b10 : Bool) where
  shape : SettingsData
  shape = record {
    watch_volume_pct = w;
    listen_volume_pct = l;
    listen_target_type = k;
    listen_target_preset = p;
    listen_target_stream = s;
    stream_urls = a ∷ b ∷ c ∷ d ∷ [];
    soundbar_stream_urls = a1 ∷ a2 ∷ a3 ∷ a4 ∷ a5 ∷ a6 ∷ a7 ∷ a8 ∷ a9 ∷ a10 ∷ [];
    soundbar_restreams = b1 ∷ b2 ∷ b3 ∷ b4 ∷ b5 ∷ b6 ∷ b7 ∷ b8 ∷ b9 ∷ b10 ∷ [];
  }

  merge-shape : merge (to_fields defaults) (known_fields (to_fields shape)) ≡ to_fields shape
  unfolding shape to_fields merge known_fields has_field numbered_fields put_field get_field
      slot_text
  merge-shape = refl

  stream_urls_shape :
      All (IsUrl is_stream_url) shape.stream_urls
      → str_fields str_of "stream_url_" 4 1 (to_fields shape) ≡ shape.stream_urls
  unfolding shape str_fields str_field raw_text to_fields numbered_fields get_field slot_text truthy
      text_value
  stream_urls_shape (ha, (hb, (hc, (hd, _)))) =
      simp (kept a ha.0, kept b hb.0, kept c hc.0, kept d hd.0)

  soundbar_urls_shape :
      All (IsUrl is_soundbar_url) shape.soundbar_stream_urls
      → str_fields str_of "soundbar_stream_url_" 10 1 (to_fields shape) ≡ shape.soundbar_stream_urls
  unfolding shape str_fields str_field raw_text to_fields numbered_fields get_field slot_text truthy
      text_value
  soundbar_urls_shape (h1, (h2, (h3, (h4, (h5, (h6, (h7, (h8, (h9, (h10, _)))))))))) = simp (
    kept a1 h1.0,
    kept a2 h2.0,
    kept a3 h3.0,
    kept a4 h4.0,
    kept a5 h5.0,
    kept a6 h6.0,
    kept a7 h7.0,
    kept a8 h8.0,
    kept a9 h9.0,
    kept a10 h10.0,
  )

  restreams_shape :
      bool_fields "soundbar_restream_" 10 1 (to_fields shape) ≡ shape.soundbar_restreams
  unfolding shape bool_fields bool_field bool_of to_fields numbered_fields get_field slot_text
      truthy
  restreams_shape = refl

  kind_shape : (k ≡ "preset") ⊎ (k ≡ "stream") → target_type str_of (to_fields shape) ≡ ok k
  unfolding shape target_type known_kind str_field raw_text to_fields get_field truthy text_value
      strip lower lstrip rstrip is_space is_empty numbered_fields
  kind_shape (inl e) = rw e
  kind_shape (inr e) = rw e

  numbers_shape :
      w ≤ 100
      → l ≤ 100
      → (1 ≤ p) × (p ≤ 6)
      → (1 ≤ s) × (s ≤ 10)
      → (int_in_range "watch_volume_pct" 0 100 "0 and 100" 0 (to_fields shape) ≡ ok w)
        × (int_in_range "listen_volume_pct" 0 100 "0 and 100" 0 (to_fields shape) ≡ ok l)
        × (int_in_range "listen_target_preset" 1 6 "1 and 6" 1 (to_fields shape) ≡ ok p)
        × (stream_in_range true (to_fields shape) ≡ ok s)
  unfolding shape int_in_range in_range stream_in_range to_fields get_field to_int
  numbers_shape hw hl hp hs = (ground arith, ground arith, ground arith, ground arith)

check_stream_urls-ok :
    (n : ℕ) (urls : List String) → All (IsUrl is_stream_url) urls → check_stream_urls n urls ≡ ok tt
unfolding check_stream_urls
check_stream_urls-ok n [] h = refl
check_stream_urls-ok n (u ∷ urls) h = rw h.0.1 (check_stream_urls-ok (suc n) urls h.1)

check_soundbar_urls-ok :
    (n : ℕ) (urls : List String)
    → All (IsUrl is_soundbar_url) urls
    → check_soundbar_urls n urls ≡ ok tt
unfolding check_soundbar_urls
check_soundbar_urls-ok n [] h = refl
check_soundbar_urls-ok n (u ∷ urls) h = rw h.0.1 (check_soundbar_urls-ok (suc n) urls h.1)

-- On a load the backend is not known, so the listen target is not checked.
check_all-ok : (d : SettingsData) → IsValid d → check_all "" d ≡ ok d
unfolding check_all check_listen is_empty
check_all-ok d v =
    rw (check_stream_urls-ok 1 d.stream_urls v.urls)
      (rw (check_soundbar_urls-ok 1 d.soundbar_stream_urls v.soundbar_urls))

-- Lists of a known length, item by item.
module _ {A : Type 0} where
  nil_case : (P : List A → Type 0) → P [] → (xs : List A) → length xs ≡ 0 → P xs
  nil_case P p [] h = p
  nil_case P p (x ∷ xs) h = absurd (omega (arith, h))

  cons_case :
      (P : List A → Type 0) (n : ℕ)
      → ((x : A) (xs : List A) → length xs ≡ n → P (x ∷ xs))
      → (xs : List A) → length xs ≡ suc n
      → P xs
  cons_case P n k [] h = absurd (omega (arith, h))
  cons_case P n k (x ∷ xs) h = k x xs (omega (arith, h))

  four_cases :
      (P : List A → Type 0)
      → ((x1 x2 x3 x4 : A) → P (x1 ∷ x2 ∷ x3 ∷ x4 ∷ []))
      → (xs : List A) → length xs ≡ 4
      → P xs
  four_cases P k = cons_case P 3 (λ x1.
      cons_case (λ ys. P (x1 ∷ ys)) 2
        (λ x2.
          cons_case (λ ys. P (x1 ∷ x2 ∷ ys)) 1
            (λ x3.
              cons_case (λ ys. P (x1 ∷ x2 ∷ x3 ∷ ys)) 0
                (λ x4. nil_case (λ ys. P (x1 ∷ x2 ∷ x3 ∷ x4 ∷ ys)) (k x1 x2 x3 x4)))))

  ten_cases :
      (P : List A → Type 0)
      → ((x1 x2 x3 x4 x5 x6 x7 x8 x9 x10 : A)
          → P (x1 ∷ x2 ∷ x3 ∷ x4 ∷ x5 ∷ x6 ∷ x7 ∷ x8 ∷ x9 ∷ x10 ∷ []))
      → (xs : List A) → length xs ≡ 10
      → P xs
  ten_cases P k = cons_case P 9 (λ x1.
      cons_case (λ ys. P (x1 ∷ ys)) 8
        (λ x2.
          cons_case (λ ys. P (x1 ∷ x2 ∷ ys)) 7
            (λ x3.
              cons_case (λ ys. P (x1 ∷ x2 ∷ x3 ∷ ys)) 6
                (λ x4.
                  cons_case (λ ys. P (x1 ∷ x2 ∷ x3 ∷ x4 ∷ ys)) 5
                    (λ x5.
                      cons_case (λ ys. P (x1 ∷ x2 ∷ x3 ∷ x4 ∷ x5 ∷ ys)) 4
                        (λ x6.
                          cons_case (λ ys. P (x1 ∷ x2 ∷ x3 ∷ x4 ∷ x5 ∷ x6 ∷ ys)) 3
                            (λ x7.
                              cons_case (λ ys. P (x1 ∷ x2 ∷ x3 ∷ x4 ∷ x5 ∷ x6 ∷ x7 ∷ ys)) 2
                                (λ x8.
                                  cons_case (λ ys. P (x1 ∷ x2 ∷ x3 ∷ x4 ∷ x5 ∷ x6 ∷ x7 ∷ x8 ∷ ys)) 1
                                    (λ x9.
                                      cons_case
                                        (λ ys. P (x1 ∷ x2 ∷ x3 ∷ x4 ∷ x5 ∷ x6 ∷ x7 ∷ x8 ∷ x9 ∷ ys))
                                        0
                                        (λ x10.
                                          nil_case
                                            (λ ys. P (
                                              x1 ∷ x2 ∷ x3 ∷ x4 ∷ x5 ∷ x6 ∷ x7 ∷ x8 ∷ x9 ∷ x10
                                              ∷ ys))
                                            (k x1 x2 x3 x4 x5 x6 x7 x8 x9 x10)))))))))))

abbrev pub Restores : (Value → String) → SettingsData → Type 0
Restores str_of d =
    IsValid d
    → (merge (to_fields defaults) (known_fields (to_fields d)) ≡ to_fields d)
      × (validate str_of "" (to_fields d) ≡ ok d)

assemble_steps :
    (str_of : Value → String) (raw : Fields) (d : SettingsData)
    → str_fields str_of "stream_url_" 4 1 raw ≡ d.stream_urls
    → str_fields str_of "soundbar_stream_url_" 10 1 raw ≡ d.soundbar_stream_urls
    → bool_fields "soundbar_restream_" 10 1 raw ≡ d.soundbar_restreams
    → assemble str_of false raw d.listen_target_type d.watch_volume_pct d.listen_volume_pct
        d.listen_target_preset d.listen_target_stream
      ≡ d
unfolding assemble
assemble_steps str_of raw d urls soundbar restreams = λ i. record d {
  stream_urls = urls i;
  soundbar_stream_urls = soundbar i;
  soundbar_restreams = restreams i;
}

-- What validate reads, field by field, is what it returns.
validate_steps :
    (str_of : Value → String) (raw : Fields) (d : SettingsData)
    → target_type str_of raw ≡ ok d.listen_target_type
    → int_in_range "watch_volume_pct" 0 100 "0 and 100" 0 raw ≡ ok d.watch_volume_pct
    → int_in_range "listen_volume_pct" 0 100 "0 and 100" 0 raw ≡ ok d.listen_volume_pct
    → int_in_range "listen_target_preset" 1 6 "1 and 6" 1 raw ≡ ok d.listen_target_preset
    → stream_in_range true raw ≡ ok d.listen_target_stream
    → str_fields str_of "stream_url_" 4 1 raw ≡ d.stream_urls
    → str_fields str_of "soundbar_stream_url_" 10 1 raw ≡ d.soundbar_stream_urls
    → bool_fields "soundbar_restream_" 10 1 raw ≡ d.soundbar_restreams
    → check_all "" d ≡ ok d
    → validate str_of "" raw ≡ ok d
unfolding validate is_empty
validate_steps str_of raw d kind watch listen preset stream urls soundbar restreams checks =
    simp (kind, watch, listen, preset, stream)
      (ap (check_all "") (assemble_steps str_of raw d urls soundbar restreams) ∙ checks)

shape-Restores :
    (str_of : Value → String) (w l p s : ℕ) (k : String) (a b c d : String)
    (a1 a2 a3 a4 a5 a6 a7 a8 a9 a10 : String) (b1 b2 b3 b4 b5 b6 b7 b8 b9 b10 : Bool)
    → Restores str_of (
        shape str_of w l p s k a b c d a1 a2 a3 a4 a5 a6 a7 a8 a9 a10 b1 b2 b3 b4 b5 b6 b7 b8 b9
          b10)
unfolding shape
shape-Restores str_of w l p s k a b c d a1 a2 a3 a4 a5 a6 a7 a8 a9 a10 b1 b2 b3 b4 b5 b6 b7 b8 b9
      b10 v =
    let (hw, hl, hp, hs) =
      numbers_shape str_of w l p s k a b c d a1 a2 a3 a4 a5 a6 a7 a8 a9 a10 b1 b2 b3 b4 b5 b6 b7 b8
        b9 b10 v.watch v.listen v.preset v.stream in
    (
      merge-shape str_of w l p s k a b c d a1 a2 a3 a4 a5 a6 a7 a8 a9 a10 b1 b2 b3 b4 b5 b6 b7 b8 b9
          b10,
      validate_steps str_of _ _
          (kind_shape str_of w l p s k a b c d a1 a2 a3 a4 a5 a6 a7 a8 a9 a10 b1 b2 b3 b4 b5 b6 b7
            b8 b9 b10 v.kind)
          hw hl hp hs
          (stream_urls_shape str_of w l p s k a b c d a1 a2 a3 a4 a5 a6 a7 a8 a9 a10 b1 b2 b3 b4 b5
            b6 b7 b8 b9 b10 v.urls)
          (soundbar_urls_shape str_of w l p s k a b c d a1 a2 a3 a4 a5 a6 a7 a8 a9 a10 b1 b2 b3 b4
            b5 b6 b7 b8 b9 b10 v.soundbar_urls)
          (restreams_shape str_of w l p s k a b c d a1 a2 a3 a4 a5 a6 a7 a8 a9 a10 b1 b2 b3 b4 b5 b6
            b7 b8 b9 b10)
          (check_all-ok _ v),
    )

pub valid-Restores : (str_of : Value → String) (d : SettingsData) → IsValid d → Restores str_of d
unfolding shape
valid-Restores str_of d v =
    four_cases (λ us. Restores str_of (record d { stream_urls = us }))
      (λ a b c d'.
        ten_cases
          (λ vs.
            Restores str_of
              (record d { stream_urls = a ∷ b ∷ c ∷ d' ∷ []; soundbar_stream_urls = vs }))
          (λ a1 a2 a3 a4 a5 a6 a7 a8 a9 a10.
            ten_cases
              (λ rs. Restores str_of (record d {
                stream_urls = a ∷ b ∷ c ∷ d' ∷ [];
                soundbar_stream_urls = a1 ∷ a2 ∷ a3 ∷ a4 ∷ a5 ∷ a6 ∷ a7 ∷ a8 ∷ a9 ∷ a10 ∷ [];
                soundbar_restreams = rs;
              }))
              (λ b1 b2 b3 b4 b5 b6 b7 b8 b9 b10.
                shape-Restores str_of d.watch_volume_pct d.listen_volume_pct d.listen_target_preset
                  d.listen_target_stream d.listen_target_type a b c d' a1 a2 a3 a4 a5 a6 a7 a8 a9
                  a10 b1 b2 b3 b4 b5 b6 b7 b8 b9 b10)
              d.soundbar_restreams v.ten_restreams)
          d.soundbar_stream_urls v.ten_urls)
      d.stream_urls v.four_urls

-- Loading the file that valid settings were written to gives those settings back.
pub load-to_fields :
    (str_of : Value → String) (d : SettingsData)
    → IsValid d
    → load str_of (holds (obj (to_fields d))) ≡ ok d
unfolding load load_value from_dict
load-to_fields str_of d v =
    let (same, back) = valid-Restores str_of d v v in
    ap
      (λ fs. elim (validate str_of "" fs) [
        | ok d' ↦ ok d'
        | err _ ↦
            validate str_of "" (salvage str_of (to_fields defaults) (known_fields (to_fields d)))
      ])
      same
    ∙ ap
        (λ (r : Result SettingsData). elim r [
          | ok d' ↦ ok d'
          | err _ ↦
              validate str_of "" (salvage str_of (to_fields defaults) (known_fields (to_fields d)))
        ])
        back
