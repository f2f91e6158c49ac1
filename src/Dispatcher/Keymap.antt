-- ===== src/Dispatcher/Keymap.antt =====
-- pihub/dispatcher.py: the packaged keymap.json (_load_keymap, _validate_keymap). `none` is the
-- exception, which __init__ lets through or makes a ValueError of.
use pihub_remote_nrf.Prelude.{
  String, Bool, true, false, not, ◌&&◌, ◌||◌, Option, none, some, List, [], ◌∷◌, if◌then◌else◌,
  is_some,
}
use pihub_remote_nrf.Prelude.Dict.{Dict}
use pihub_remote_nrf.Prelude.Json.{
  Value, Fields, Items, obj, arr, end, field, nil, cons, get_field, text_of, JsonFile, missing,
  unreadable, holds,
}
use pihub_remote_nrf.Dispatcher.State.{Bindings}
use pihub_remote_nrf.Dispatcher.Actions.{is_text}

-- `name in doc`
abbrev in_doc : String → Value → Bool
in_doc k (obj doc) = is_some (get_field k doc)
in_doc k _ = false

unfoldable pub load_keymap : JsonFile → Option Value
load_keymap missing = none
load_keymap unreadable = none
load_keymap (holds doc) = if in_doc "scancode_map" doc && in_doc "modes" doc then some doc else none

-- The checks of one action.
unfoldable pub is_valid_action : Fields → Bool
is_valid_action action =
    let domain = text_of (get_field "domain" action) in
    if not (
      is_text "ble" domain
      || is_text "noop" domain
      || is_text "speaker" domain
      || is_text "flow" domain)
    then false
    else if is_text "flow" domain
    then is_text "run" (text_of (get_field "action" action))
      && is_some (text_of (get_field "name" action))
    else if is_text "ble" domain
    then is_some (text_of (get_field "usage" action)) && is_some (text_of (get_field "code" action))
    else true

-- Put before the rest, where there is one.
abbrev pub before {ℓ} : {A : Type ℓ} → A → Option (List A) → Option (List A)
before a none = none
before a (some rest) = some (a ∷ rest)

unfoldable pub valid_actions : Items → Option (List Fields)
unfolding is_valid_action
valid_actions nil = some []
valid_actions (cons (obj action) rest) =
    let others = valid_actions rest in if is_valid_action action then before action others else none
valid_actions (cons _ rest) = none

abbrev pub under {ℓ} : {A : Type ℓ} → String → Option A → Option (Dict A) → Option (Dict A)
under k none rest = none
under k (some a) rest = before (k, a) rest

unfoldable pub valid_mapping : Fields → Option Bindings
unfolding valid_actions
valid_mapping end = some []
valid_mapping (field rem_key (arr actions) rest) =
    under rem_key (valid_actions actions) (valid_mapping rest)
valid_mapping (field rem_key _ rest) = none

unfoldable pub valid_modes : Fields → Option (Dict Bindings)
unfolding valid_mapping
valid_modes end = some []
valid_modes (field mode (obj mapping) rest) = under mode (valid_mapping mapping) (valid_modes rest)
valid_modes (field mode _ rest) = none

-- _validate_keymap, with the bindings that __init__ then takes from it.
unfoldable pub validate_keymap : Value → Option (Dict Bindings)
unfolding valid_modes
validate_keymap (obj doc) = elim (get_field "modes" doc) [
  | some (obj modes) ↦ valid_modes modes
  | _ ↦ none
]
validate_keymap _ = none
