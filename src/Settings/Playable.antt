-- ===== src/Settings/Playable.antt =====
-- pihub/settings.py and pihub/slots.py: what is saved for a speaker's backend, that speaker can play.
use pihub_remote_nrf.Prelude.{
  ℕ, zero, suc, ◌≤◌, String, ◌≡◌, ◌≢◌, refl, subst, ap, sym, ◌∙◌, inl, inr, Bool, true, false, not,
  Option, none, some, List, [], ◌∷◌, ◌==◌, ◌&&◌, ◌||◌, leb, All, arith, eq_iff, Bool-cases,
  if◌then◌else◌,
}
use pihub_remote_nrf.Prelude.Text.{strip, is_empty, lstrip, rstrip}
use pihub_remote_nrf.Prelude.Json.{Fields, Value}
use pihub_remote_nrf.Prelude.Result.{ok, unless, Holds, bind-Holds}
use pihub_remote_nrf.Slots.{
  Settings, SlotTarget, resolve_slot, listen_slot, play_slot, slot_empty, is_tunein_source,
}
use pihub_remote_nrf.Settings.Values.{SettingsData, nth, getters}
use pihub_remote_nrf.Settings.Validate.{
  target_type, int_in_range, stream_in_range, check_stream_urls, check_soundbar_urls, check_listen,
  check_all, assemble, validate, is_stream_url, is_soundbar_url,
}
use pihub_remote_nrf.Settings.Checks.{IsUrl, Holds-of, Holds-map, stream_in_range_lem}
use pihub_remote_nrf.Settings.Valid.{IsValid, validate-IsValid}
use pihub_remote_nrf.Slots.Listen.{stream_target, resolve_slot-listen_slot}

-- The part of a check on save that depends on the backend.
abbrev pub IsFor : String → SettingsData → Type 0
IsFor backend d =
    (check_listen backend d ≡ ok tt)
    × (d.listen_target_stream
        ≤ (if backend == "samsung_soundbar" || is_empty backend then 10 else 4))
    × (d.listen_target_type
        ≡ (if backend == "samsung_soundbar" then "stream" else d.listen_target_type))

check_all-listen :
    (backend : String) (d : SettingsData)
    → Holds (λ d'. (d ≡ d') × (check_listen backend d ≡ ok tt)) (check_all backend d)
unfolding check_all
check_all-listen backend d = bind-Holds _ (check_stream_urls 1 d.stream_urls) _ (λ a e.
    bind-Holds _ (check_soundbar_urls 1 d.soundbar_stream_urls) _
      (λ b f. bind-Holds _ (check_listen backend d) _ (λ c g. (refl, g))))

if_if : (b : Bool) (s k : String) → (if b then s else k) ≡ (if b then s else (if b then s else k))
if_if true s k = refl
if_if false s k = refl

validate-IsFor :
    (str_of : Value → String) (backend : String) (raw : Fields)
    → Holds (IsFor backend) (validate str_of backend raw)
unfolding validate
validate-IsFor str_of backend raw =
    let wide = backend == "samsung_soundbar" || is_empty backend in
    bind-Holds (IsFor backend) (target_type str_of raw) _ (λ kind e0.
      bind-Holds (IsFor backend) (int_in_range "watch_volume_pct" 0 100 "0 and 100" 0 raw) _
        (λ watch e1.
          bind-Holds (IsFor backend) (int_in_range "listen_volume_pct" 0 100 "0 and 100" 0 raw) _
            (λ listen e2.
              bind-Holds (IsFor backend) (int_in_range "listen_target_preset" 1 6 "1 and 6" 1 raw) _
                (λ preset e3. bind-Holds (IsFor backend) (stream_in_range wide raw) _ (λ stream e4.
                  let d =
                    assemble str_of (backend == "samsung_soundbar") raw kind watch listen preset
                      stream in
                  Holds-map (λ d'. (d ≡ d') × (check_listen backend d ≡ ok tt)) (IsFor backend)
                    (check_all backend d)
                    (λ d' c. subst (IsFor backend) c.0 (
                      c.1,
                      (unfold assemble in
                          (Holds-of (λ n. (1 ≤ n) × (n ≤ (if wide then 10 else 4))) _ stream e4
                            (stream_in_range_lem wide raw)).1),
                      (unfold assemble in if_if (backend == "samsung_soundbar") "stream" kind),
                    ))
                    (check_all-listen backend d))))))

unless-ok : (b : Bool) (e : String) → unless b e ≡ ok tt → b ≡ true
unless-ok true e h = refl
unless-ok false e h = absurd (ground arith)

nth-stripped :
    (kind : String → Bool) (n : ℕ) (us : List String)
    → All (IsUrl kind) us
    → strip (nth "" n us) ≡ nth "" n us
unfolding nth strip lstrip rstrip
nth-stripped kind zero us h = refl
nth-stripped kind (suc n) [] h = refl
nth-stripped kind (suc zero) (u ∷ us) h = h.0.0
nth-stripped kind (suc (suc n)) (u ∷ us) h = nth-stripped kind (suc n) us h.1

-- It resolves to a slot, and the slot is not empty.
abbrev pub Plays : Option SlotTarget → Type 0
Plays none = ⊥
Plays (some t) = (n : ℕ) → play_slot t ≢ slot_empty n

-- A slot whose URL is not empty plays.
url-Plays :
    (slot : ℕ) (url : String) (restream : Bool)
    → is_empty url ≡ false
    → Plays (some (record { slot = slot; preset = none; url = url; restream = restream }))
unfolding play_slot
url-Plays slot url restream h n e = ground (arith, h, e)

leb-ok : (n lo hi : ℕ) → lo ≤ n → n ≤ hi → (leb lo n && leb n hi) ≡ true
leb-ok n lo hi h k = ground arith

resolve_soundbar :
    (s : Settings) (n : ℕ)
    → 1 ≤ n
    → n ≤ 10
    → resolve_slot s "samsung_soundbar" n
      ≡ some (record {
        slot = n;
        preset = none;
        url = s.get_soundbar_stream_url n;
        restream = s.get_soundbar_restream n || is_tunein_source (s.get_soundbar_stream_url n);
      })
unfolding resolve_slot
resolve_soundbar s n lo hi = rw (leb-ok n 1 10 lo hi)

resolve_preset :
    (s : Settings) (backend : String) (n : ℕ)
    → (backend == "samsung_soundbar") ≡ false
    → 1 ≤ n
    → n ≤ 6
    → resolve_slot s backend n
      ≡ some (record { slot = n; preset = some n; url = ""; restream = false })
unfolding resolve_slot
resolve_preset s backend n other lo hi = simp (leb-ok n 1 10 lo (omega arith), other, hi_leb)
  where
    hi_leb : leb n 6 ≡ true
    hi_leb = ground arith

module _ (d : SettingsData) (v : IsValid d) where
  soundbar-Plays :
      IsFor "samsung_soundbar" d
      → Plays
          (resolve_slot (getters d) "samsung_soundbar" (listen_slot (getters d) "samsung_soundbar"))
  unfolding listen_slot getters check_listen
  soundbar-Plays (checked, top, kind) =
      let filled =
        unless-ok (not (is_empty (nth "" d.listen_target_stream d.soundbar_stream_urls))) _
          checked in
      rw (resolve_soundbar (getters d) d.listen_target_stream v.stream.0 v.stream.1) (
        rw
          (nth-stripped is_soundbar_url d.listen_target_stream d.soundbar_stream_urls
            v.soundbar_urls)
          (url-Plays d.listen_target_stream (nth "" d.listen_target_stream d.soundbar_stream_urls) _
            (ground arith)))

  module _ (backend : String) (other : (backend == "samsung_soundbar") ≡ false) where
    listen_preset :
        d.listen_target_type ≡ "preset" → listen_slot (getters d) backend ≡ d.listen_target_preset
    unfolding listen_slot getters
    listen_preset kind = simp (other, kind)

    preset-Plays :
        d.listen_target_type ≡ "preset"
        → Plays (resolve_slot (getters d) backend (listen_slot (getters d) backend))
    unfolding play_slot
    preset-Plays kind =
        subst Plays
          (sym (
            ap (resolve_slot (getters d) backend) (listen_preset kind)
            ∙ resolve_preset (getters d) backend d.listen_target_preset other v.preset.0
                v.preset.1))
          (λ n e. ground (arith, e))

    few_streams :
        is_empty backend ≡ false
        → d.listen_target_stream
          ≤ (if backend == "samsung_soundbar" || is_empty backend then 10 else 4)
        → leb d.listen_target_stream 4 ≡ true
    few_streams named top =
        let top' : d.listen_target_stream ≤ 4 = rw (other, named) at top in ground arith

    is_preset : d.listen_target_type ≡ "stream" → (d.listen_target_type == "preset") ≡ false
    is_preset kind = rw kind

    has_url :
        is_empty backend ≡ false
        → d.listen_target_type ≡ "stream"
        → check_listen backend d ≡ ok tt
        → is_empty (nth "" d.listen_target_stream d.stream_urls) ≡ false
    unfolding check_listen
    has_url named kind checked =
        let c = simp (check_listen, other, named, kind) at checked in
        ground (arith, unless-ok (not (is_empty (nth "" d.listen_target_stream d.stream_urls))) _ c)

    stream-Plays :
        is_empty backend ≡ false
        → d.listen_target_type ≡ "stream"
        → IsFor backend d
        → Plays (resolve_slot (getters d) backend (listen_slot (getters d) backend))
    unfolding getters
    stream-Plays named kind (checked, top, _) =
        subst Plays
          (sym (
            resolve_slot-listen_slot (getters d) backend other (is_preset kind) v.stream.0
            ∙ ap (λ b. if b then some (stream_target (getters d) d.listen_target_stream) else none)
                (few_streams named top)))
          (url-Plays _ (strip (nth "" d.listen_target_stream d.stream_urls)) false (
            rw (nth-stripped is_stream_url d.listen_target_stream d.stream_urls v.urls)
              (has_url named kind checked)))

-- Settings that validate for a speaker's backend, and so all that are saved for it, have a listen target
-- that this speaker's slots resolve, and that is a preset or a stream with a URL.
pub saved_listen_target-Plays :
    (str_of : Value → String) (backend : String) (raw : Fields) (d : SettingsData)
    → is_empty backend ≡ false
    → validate str_of backend raw ≡ ok d
    → Plays (resolve_slot (getters d) backend (listen_slot (getters d) backend))
saved_listen_target-Plays str_of backend raw d named e =
    let v = Holds-of IsValid _ d e (validate-IsValid str_of raw backend) in
    let saved = Holds-of (IsFor backend) _ d e (validate-IsFor str_of backend raw) in
    elim (Bool-cases (backend == "samsung_soundbar")) [
      | inl same ↦
          subst (λ b. IsFor b d → Plays (resolve_slot (getters d) b (listen_slot (getters d) b)))
            (sym ((eq_iff backend "samsung_soundbar").0 same)) (soundbar-Plays d v) saved
      | inr other ↦ elim v.kind [
        | inl kind ↦ preset-Plays d v backend other kind
        | inr kind ↦ stream-Plays d v backend other named kind saved
      ]
    ]
