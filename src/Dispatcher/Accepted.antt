-- ===== src/Dispatcher/Accepted.antt =====
-- pihub/dispatcher.py: just which documents _validate_keymap accepts, and with which bindings.
use pihub_remote_nrf.Prelude.{
  ◌≡◌, refl, sym, ap, subst, true, Option, none, some, List, [], ◌∷◌, arith, All,
}
use pihub_remote_nrf.Prelude.Dict.{Dict}
use pihub_remote_nrf.Prelude.Json.{Value, Fields, obj, arr, null, bool, int, float, str, get_field}
use pihub_remote_nrf.Dispatcher.State.{Bindings}
use pihub_remote_nrf.Dispatcher.Keymap.{
  is_valid_action, valid_actions, valid_mapping, valid_modes, validate_keymap,
}
use pihub_remote_nrf.Dispatcher.Routing.{
  IsAction, noop, speaker, flow, ble, IsKey, IsMode, SaysModes, OnSome, valid_modes-SaysModes,
  items, mapping_fields, modes_fields,
}

-- A keymap that is accepted says, under modes, just the bindings that are taken from it, and every action of
-- them is a noop, a speaker action, a flow action that runs a named flow, or a BLE action with the texts of
-- a usage and a code.
pub validate_keymap_lem :
    (doc : Fields) (bindings : Dict Bindings)
    → validate_keymap (obj doc) ≡ some bindings
    → (get_field "modes" doc ≡ some (obj (modes_fields bindings))) × All IsMode bindings
unfolding validate_keymap
validate_keymap_lem doc bindings h = by_modes (get_field "modes" doc) h
  where
    by_fields :
        (fs : Fields) (o : Option (Dict Bindings))
        → OnSome (SaysModes fs) o
        → o ≡ some bindings
        → (◌≡◌ {A = Option Value} (some (obj fs)) (some (obj (modes_fields bindings))))
          × All IsMode bindings
    by_fields fs none says e = absurd (ground (arith, e))
    by_fields fs (some b) says e =
        let same : b ≡ bindings = ground (arith, e) in
        subst
          (λ b.
            (◌≡◌ {A = Option Value} (some (obj fs)) (some (obj (modes_fields b)))) × All IsMode b)
          same (ap (λ f. some (obj f)) says.0, says.1)

    by_modes :
        (m : Option Value)
        → (elim m [ some (obj modes) ↦ valid_modes modes | _ ↦ none ]) ≡ some bindings
        → (m ≡ some (obj (modes_fields bindings))) × All IsMode bindings
    by_modes none e = absurd (ground (arith, e))
    by_modes (some (obj fs)) e = by_fields fs (valid_modes fs) (valid_modes-SaysModes fs) e
    by_modes (some null) e = absurd (ground (arith, e))
    by_modes (some (bool _)) e = absurd (ground (arith, e))
    by_modes (some (int _)) e = absurd (ground (arith, e))
    by_modes (some (float _)) e = absurd (ground (arith, e))
    by_modes (some (str _)) e = absurd (ground (arith, e))
    by_modes (some (arr _)) e = absurd (ground (arith, e))

action-valid : (a : Fields) → IsAction a → is_valid_action a ≡ true
unfolding is_valid_action
action-valid a (noop d) = rw d refl
action-valid a (speaker d) = rw d refl
action-valid a (flow name d r n) = rw (d, r, n) refl
action-valid a (ble usage code b) = rw (b.domain, b.usage_text, b.code_text) refl

items-accepted :
    (actions : List Fields) → All IsAction actions → valid_actions (items actions) ≡ some actions
unfolding valid_actions items
items-accepted [] h = refl
items-accepted (a ∷ rest) h = rw (action-valid a h.0, items-accepted rest h.1) refl

mapping-accepted :
    (keys : Bindings) → All IsKey keys → valid_mapping (mapping_fields keys) ≡ some keys
unfolding valid_mapping mapping_fields
mapping-accepted [] h = refl
mapping-accepted ((k, actions) ∷ rest) h =
    rw (items-accepted actions h.0, mapping-accepted rest h.1) refl

modes-accepted :
    (modes : Dict Bindings) → All IsMode modes → valid_modes (modes_fields modes) ≡ some modes
unfolding valid_modes modes_fields
modes-accepted [] h = refl
modes-accepted ((k, keys) ∷ rest) h = rw (mapping-accepted keys h.0, modes-accepted rest h.1) refl

-- A keymap that says, under modes, bindings whose actions are each a noop, a speaker action, a flow action
-- that runs a named flow, or a BLE action with the texts of a usage and a code, is accepted, with these bindings.
pub validate_keymap-modes_fields :
    (doc : Fields) (bindings : Dict Bindings)
    → get_field "modes" doc ≡ some (obj (modes_fields bindings))
    → All IsMode bindings
    → validate_keymap (obj doc) ≡ some bindings
unfolding validate_keymap
validate_keymap-modes_fields doc bindings h v =
    subst (λ m. (elim m [ some (obj modes) ↦ valid_modes modes | _ ↦ none ]) ≡ some bindings)
      (sym h) (modes-accepted bindings v)
