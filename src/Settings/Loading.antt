-- ===== src/Settings/Loading.antt =====
-- pihub/settings.py: every file loads, and what is saved is what is loaded.
use pihub_remote_nrf.Prelude.{
  String, ◌≡◌, refl, ap, subst, sym, ◌∙◌, true, Option, none, some, arith,
}
use pihub_remote_nrf.Prelude.Text.{strip, is_empty, lower, lstrip, rstrip}
use pihub_remote_nrf.Prelude.Json.{
  Fields, Value, null, bool, int, float, str, arr, obj, end, field, put_field, JsonFile, missing,
  unreadable, holds,
}
use pihub_remote_nrf.Prelude.Result.{Result, ok, err}
use pihub_remote_nrf.Settings.Values.{SettingsData, defaults, to_fields}
use pihub_remote_nrf.Settings.Validate.{validate, validate_payload, is_stream_url, is_soundbar_url}
use pihub_remote_nrf.Settings.Store.{
  Store, merge, known_fields, keep_valid, salvage, from_dict, load, load_value, save_from_payload,
}
use pihub_remote_nrf.Settings.Checks.{Holds-of}
use pihub_remote_nrf.Settings.Valid.{IsValid, validate-IsValid}
use pihub_remote_nrf.Settings.Roundtrip.{valid-Restores, load-to_fields}

-- The computation returns valid settings.
abbrev pub Returns : Result SettingsData → Type 0
Returns r = (d : SettingsData) × (r ≡ ok d) × IsValid d

pub defaults-IsValid : IsValid defaults
unfolding is_stream_url is_soundbar_url is_empty strip lstrip rstrip
defaults-IsValid = ground arith

module _ (str_of : Value → String) where
  validate-Returns :
      (backend : String) (raw : Fields) (d : SettingsData)
      → validate str_of backend raw ≡ ok d
      → IsValid d
  validate-Returns backend raw d e = Holds-of IsValid _ d e (validate-IsValid str_of raw backend)

  -- The fields validate.
  abbrev IsGood : Fields → Type 0
  IsGood fs = (d : SettingsData) × (validate str_of "" fs ≡ ok d)

  keep_valid-IsGood :
      (k : String) (v : Value) (good : Fields) → IsGood good → IsGood (keep_valid str_of k v good)
  unfolding keep_valid
  keep_valid-IsGood k v good g = by_result (validate str_of "" (put_field k v good)) refl
    where
      by_result :
          (r : Result SettingsData)
          → validate str_of "" (put_field k v good) ≡ r
          → IsGood (elim r [ ok _ ↦ put_field k v good | err _ ↦ good ])
      by_result (ok d) e = (d, e)
      by_result (err _) e = g

  salvage-IsGood : (good fs : Fields) → IsGood good → IsGood (salvage str_of good fs)
  unfolding salvage
  salvage-IsGood good end g = g
  salvage-IsGood good (field k v fs) g =
      salvage-IsGood (keep_valid str_of k v good) fs (keep_valid-IsGood k v good g)

  from_dict_lem : (raw : Fields) → Returns (from_dict str_of raw)
  unfolding from_dict
  from_dict_lem raw =
      by_result (validate str_of "" (merge (to_fields defaults) (known_fields raw))) refl
    where
      rest : Fields
      rest = salvage str_of (to_fields defaults) (known_fields raw)

      by_result :
          (r : Result SettingsData)
          → validate str_of "" (merge (to_fields defaults) (known_fields raw)) ≡ r
          → Returns (elim r [ ok d ↦ ok d | err _ ↦ validate str_of "" rest ])
      by_result (ok d) e =
          (d, refl, validate-Returns "" (merge (to_fields defaults) (known_fields raw)) d e)
      by_result (err _) e =
          let (d, good) =
            salvage-IsGood (to_fields defaults) (known_fields raw)
              (defaults, (valid-Restores str_of defaults defaults-IsValid defaults-IsValid).1) in
          (d, good, validate-Returns "" rest d good)

  -- Whatever the file holds, and if it is missing or cannot be read, loading does not raise, and the
  -- settings it gives are valid.
  pub load_lem : (file : JsonFile) → Returns (load str_of file)
  unfolding load load_value
  load_lem missing = (defaults, refl, defaults-IsValid)
  load_lem unreadable = (defaults, refl, defaults-IsValid)
  load_lem (holds null) = from_dict_lem end
  load_lem (holds (bool _)) = from_dict_lem end
  load_lem (holds (int _)) = from_dict_lem end
  load_lem (holds (float _)) = from_dict_lem end
  load_lem (holds (str _)) = from_dict_lem end
  load_lem (holds (arr _)) = from_dict_lem end
  load_lem (holds (obj raw)) = from_dict_lem raw

  validate_payload-IsValid :
      (backend : Option String) (raw : Fields) (d : SettingsData)
      → validate_payload str_of backend raw ≡ ok d
      → IsValid d
  unfolding validate_payload
  validate_payload-IsValid none raw d e = validate-Returns "" raw d e
  validate_payload-IsValid (some b) raw d e = validate-Returns (lower (strip b)) raw d e

  -- Settings that were saved for any backend, with a file that could be written, are valid, are
  -- what the call returns, and are what the next load of the file gives.
  pub save-load :
      (backend : Option String) (payload : Fields) (s s' : Store) (shown : Fields)
      → save_from_payload str_of true backend payload s ≡ (s', ok shown)
      → IsValid s'.settings
        × (shown ≡ to_fields s'.settings)
        × (load str_of s'.file ≡ ok s'.settings)
  unfolding save_from_payload
  save-load backend payload s s' shown =
      by_result (validate_payload str_of backend (merge (to_fields s.settings) payload)) refl
    where
      by_result :
          (r : Result SettingsData)
          → validate_payload str_of backend (merge (to_fields s.settings) payload) ≡ r
          → (elim r as (λ _. Store × Result Fields) [
            | err e ↦ (s, err e)
            | ok d ↦ (record { settings = d; file = holds (obj (to_fields d)) }, ok (to_fields d))
          ])
            ≡ (s', ok shown)
          → IsValid s'.settings
            × (shown ≡ to_fields s'.settings)
            × (load str_of s'.file ≡ ok s'.settings)
      by_result (err e) f same = absurd (ground arith)
      by_result (ok d) f same =
          let back =
            subst
              (λ (x : Store).
                IsValid x.settings
                × (to_fields d ≡ to_fields x.settings)
                × (load str_of x.file ≡ ok x.settings))
              (ap (λ p. p.0) same)
              (let v = validate_payload-IsValid backend _ d f in
                (v, refl, load-to_fields str_of d v)) in
          (back.0, sym (ap (λ p. elim p.1 [ ok fs ↦ fs | err _ ↦ shown ]) same) ∙ back.1, back.2)
