-- ===== src/Settings/Checks.antt =====
-- pihub/settings.py: what each check of _validate_payload lets pass.
use pihub_remote_nrf.Prelude.{
  ℕ, zero, suc, ◌≤◌, String, ◌≡◌, refl, ◌⊎◌, inl, inr, Bool, true, false, List, [], ◌∷◌, ◌==◌, ◌&&◌,
  ◌||◌, leb, arith, length, All, eq_iff, Bool-cases, if_split, subst, ap, if◌then◌else◌,
}
use pihub_remote_nrf.Prelude.Text.{strip}
use pihub_remote_nrf.Prelude.Text.Strip.{strip-strip}
use pihub_remote_nrf.Prelude.Int.{pos, negsuc}
use pihub_remote_nrf.Prelude.Json.{Fields, Value, IntResult}
use pihub_remote_nrf.Prelude.Result.{Result, ok, err, Holds, bind-Holds}
use pihub_remote_nrf.Settings.Values.{numbered, SettingsData}
use pihub_remote_nrf.Settings.Validate.{
  int_in_range, in_range, is_stream_url, is_soundbar_url, check_stream_urls, check_soundbar_urls,
  check_listen, check_all, raw_text, str_field, known_kind, str_fields, bool_fields,
  stream_in_range,
}

-- A kept URL: stripped, and of a kind that the checks let pass.
abbrev pub IsUrl : (String → Bool) → String → Type 0
IsUrl kind url = (strip url ≡ url) × (kind url ≡ true)

in_range_lem :
    (name : String) (lo hi : ℕ) (range : String) (r : IntResult)
    → Holds (λ n. (lo ≤ n) × (n ≤ hi)) (in_range name lo hi range r)
unfolding in_range
in_range_lem name lo hi range (IntResult.err _) = tt
in_range_lem name lo hi range (IntResult.ok (negsuc n)) = tt
in_range_lem name lo hi range (IntResult.ok (pos n)) =
    if_split (Holds (λ k. (lo ≤ k) × (k ≤ hi))) (leb lo n && leb n hi) (λ h. ground arith) (λ h. tt)

pub Holds-of : {A : Type 0} (P : A → Type 0) (m : Result A) (a : A) → m ≡ ok a → Holds P m → P a
Holds-of P m a e h = subst (Holds P) e h

pub Holds-map :
    {A : Type 0} (P Q : A → Type 0) (m : Result A) → ((a : A) → P a → Q a) → Holds P m → Holds Q m
Holds-map P Q (ok a) f h = f a h
Holds-map P Q (err e) f h = tt

check_stream_urls-All :
    (n : ℕ) (urls : List String)
    → Holds (λ _. All (λ u. is_stream_url u ≡ true) urls) (check_stream_urls n urls)
unfolding check_stream_urls
check_stream_urls-All n [] = tt
check_stream_urls-All n (u ∷ urls) = elim (Bool-cases (is_stream_url u)) [
  | inl e ↦ rw e (
      Holds-map _ _ (check_stream_urls (suc n) urls) (λ _ h. (refl, h))
        (check_stream_urls-All (suc n) urls))
  | inr e ↦ rw e tt
]

pub length-str_fields :
    (str_of : Value → String) (prefix : String) (count n : ℕ) (raw : Fields)
    → length (str_fields str_of prefix count n raw) ≡ count
unfolding str_fields
length-str_fields str_of prefix zero n raw = refl
length-str_fields str_of prefix (suc count) n raw =
    ap suc (length-str_fields str_of prefix count (suc n) raw)

pub length-bool_fields :
    (prefix : String) (count n : ℕ) (raw : Fields) → length (bool_fields prefix count n raw) ≡ count
unfolding bool_fields
length-bool_fields prefix zero n raw = refl
length-bool_fields prefix (suc count) n raw = ap suc (length-bool_fields prefix count (suc n) raw)

pub str_fields-Stripped :
    (str_of : Value → String) (prefix : String) (count n : ℕ) (raw : Fields)
    → All (λ u. strip u ≡ u) (str_fields str_of prefix count n raw)
unfolding str_fields str_field
str_fields-Stripped str_of prefix zero n raw = tt
str_fields-Stripped str_of prefix (suc count) n raw = (
  strip-strip (raw_text str_of (numbered prefix n) "" raw),
  str_fields-Stripped str_of prefix count (suc n) raw,
)

pub known_kind_lem :
    (kind : String) → Holds (λ k. (k ≡ "preset") ⊎ (k ≡ "stream")) (known_kind kind)
unfolding known_kind
known_kind_lem kind =
    if_split (Holds (λ k. (k ≡ "preset") ⊎ (k ≡ "stream"))) (kind == "preset" || kind == "stream")
      (λ h. ground (arith, eq_iff kind "preset", eq_iff kind "stream")) (λ h. tt)

-- The checks pass a record on unchanged, and its URLs are then of the kinds they check.
check_soundbar_urls-All :
    (n : ℕ) (urls : List String)
    → Holds (λ _. All (λ u. is_soundbar_url u ≡ true) urls) (check_soundbar_urls n urls)
unfolding check_soundbar_urls
check_soundbar_urls-All n [] = tt
check_soundbar_urls-All n (u ∷ urls) = elim (Bool-cases (is_soundbar_url u)) [
  | inl e ↦ rw e (
      Holds-map _ _ (check_soundbar_urls (suc n) urls) (λ _ h. (refl, h))
        (check_soundbar_urls-All (suc n) urls))
  | inr e ↦ rw e tt
]

abbrev pub IsChecked : SettingsData → SettingsData → Type 0
IsChecked d d' =
    (d ≡ d')
    × All (λ u. is_stream_url u ≡ true) d.stream_urls
    × All (λ u. is_soundbar_url u ≡ true) d.soundbar_stream_urls

pub check_all_lem :
    (backend : String) (d : SettingsData) → Holds (IsChecked d) (check_all backend d)
unfolding check_all
check_all_lem backend d = bind-Holds (IsChecked d) (check_stream_urls 1 d.stream_urls) _ (λ a e.
    bind-Holds (IsChecked d) (check_soundbar_urls 1 d.soundbar_stream_urls) _ (λ b f.
      bind-Holds (IsChecked d) (check_listen backend d) _ (λ c g. (
        refl,
        Holds-of _ _ a e (check_stream_urls-All 1 d.stream_urls),
        Holds-of _ _ b f (check_soundbar_urls-All 1 d.soundbar_stream_urls),
      ))))

pub Stripped-IsUrl :
    (kind : String → Bool) (urls : List String)
    → All (λ u. strip u ≡ u) urls
    → All (λ u. kind u ≡ true) urls
    → All (IsUrl kind) urls
Stripped-IsUrl kind [] s k = tt
Stripped-IsUrl kind (u ∷ urls) s k = ((s.0, k.0), Stripped-IsUrl kind urls s.1 k.1)

pub int_in_range_lem :
    (name : String) (lo hi : ℕ) (range : String) (default : ℕ) (raw : Fields)
    → Holds (λ n. (lo ≤ n) × (n ≤ hi)) (int_in_range name lo hi range default raw)
unfolding int_in_range
int_in_range_lem name lo hi range default raw = in_range_lem name lo hi range _

pub stream_in_range_lem :
    (wide : Bool) (raw : Fields)
    → Holds (λ n. (1 ≤ n) × (n ≤ (if wide then 10 else 4))) (stream_in_range wide raw)
unfolding stream_in_range
stream_in_range_lem true raw = int_in_range_lem "listen_target_stream" 1 10 "1 and 10" 1 raw
stream_in_range_lem false raw = int_in_range_lem "listen_target_stream" 1 4 "1 and 4" 1 raw
