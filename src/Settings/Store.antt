-- ===== src/Settings/Store.antt =====
-- pihub/settings.py, SettingsStore: load, with what it does to a file that is partly invalid, and
-- save_from_payload. The file is the JSON value that it holds; writing it may fail.
use pihub_remote_nrf.Prelude.{String, Bool, true, false, Option, none, some, if◌then◌else◌}
use pihub_remote_nrf.Prelude.Json.{
  Fields, Value, end, field, obj, get_field, put_field, JsonFile, missing, unreadable, holds,
}
use pihub_remote_nrf.Prelude.Result.{Result, ok, err}
use pihub_remote_nrf.Settings.Values.{SettingsData, defaults, to_fields}
use pihub_remote_nrf.Settings.Validate.{validate, validate_payload}

pub record Store : Type 0 where
  pub settings : SettingsData
  pub file : JsonFile

-- {**base, **more}, and base.update(more)
unfoldable pub merge : Fields → Fields → Fields
unfolding put_field
merge base end = base
merge base (field k v more) = merge (put_field k v base) more

unfoldable pub has_field : String → Fields → Bool
unfolding get_field
has_field k fs = elim (get_field k fs) [ none ↦ false | some _ ↦ true ]

-- The fields whose names are settings.
unfoldable pub known_fields : Fields → Fields
unfolding has_field to_fields
known_fields end = end
known_fields (field k v fs) =
    let rest = known_fields fs in if has_field k (to_fields defaults) then field k v rest else rest

module _ (str_of : Value → String) where
  -- `good` with this field, where it validates with it.
  unfoldable pub keep_valid : String → Value → Fields → Fields
  unfolding validate put_field
  keep_valid k v good = elim (validate str_of "" (put_field k v good)) [
    | ok _ ↦ put_field k v good
    | err _ ↦ good
  ]

  -- The loop over known.items()
  unfoldable pub salvage : Fields → Fields → Fields
  unfolding keep_valid
  salvage good end = good
  salvage good (field k v fs) = salvage (keep_valid k v good) fs

  -- _from_dict
  unfoldable pub from_dict : Fields → Result SettingsData
  unfolding merge known_fields salvage validate to_fields
  from_dict raw = elim (validate str_of "" (merge (to_fields defaults) (known_fields raw))) [
    | ok d ↦ ok d
    | err _ ↦ validate str_of "" (salvage (to_fields defaults) (known_fields raw))
  ]

  unfoldable pub load_value : Value → Result SettingsData
  unfolding from_dict
  load_value (obj raw) = from_dict raw
  load_value _ = from_dict end

  -- load, as what it makes of the file
  unfoldable pub load : JsonFile → Result SettingsData
  unfolding load_value
  load missing = ok defaults
  load unreadable = ok defaults
  load (holds v) = load_value v

  -- save_from_payload, with the backend; `writable` says whether the file can be written. A payload
  -- that does not validate changes nothing; a file that cannot be written keeps its content.
  unfoldable pub save_from_payload : Bool → Option String → Fields → Store → Store × Result Fields
  unfolding validate_payload merge to_fields
  save_from_payload writable backend payload s =
      elim (validate_payload str_of backend (merge (to_fields s.settings) payload)) [
        | err e ↦ (s, err e)
        | ok d ↦
            if writable
            then (record { settings = d; file = holds (obj (to_fields d)) }, ok (to_fields d))
            else (record s { settings = d }, err "OSError")
      ]
