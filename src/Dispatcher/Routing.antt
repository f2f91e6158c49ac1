-- ===== src/Dispatcher/Routing.antt =====
-- pihub/dispatcher.py and pihub/ble_dongle.py: the actions of a keymap that passed _validate_keymap, from
-- the compiled frames to the link.
use pihub_remote_nrf.Prelude.{
  is_some, ◌≡◌, refl, ap, String, true, ◌&&◌, inl, inr, Option, none, some, List, [], ◌∷◌, arith,
  eq_iff, All, if_split, Bool-cases,
}
use pihub_remote_nrf.Prelude.Dict.{Dict}
use pihub_remote_nrf.Prelude.Json.{
  Fields, Items, obj, arr, null, bool, int, float, str, end, field, nil, cons, get_field, text_of,
}
use pihub_remote_nrf.Ble.Compiled.{Binds}
use pihub_remote_nrf.Dispatcher.State.{Bindings}
use pihub_remote_nrf.Dispatcher.Actions.{is_text}
use pihub_remote_nrf.Dispatcher.Keymap.{
  is_valid_action, valid_actions, valid_mapping, valid_modes, before, under,
}

-- An action of a known domain, with what the domain needs.
pub data IsAction (a : Fields) : Type 0 where
  noop : text_of (get_field "domain" a) ≡ some "noop" → IsAction a
  speaker : text_of (get_field "domain" a) ≡ some "speaker" → IsAction a
  flow :
      (name : String)
      → text_of (get_field "domain" a) ≡ some "flow"
      → text_of (get_field "action" a) ≡ some "run"
      → text_of (get_field "name" a) ≡ some name
      → IsAction a
  ble : (usage code : String) → Binds usage code a → IsAction a

abbrev pub IsKey : String × List Fields → Type 0
IsKey key = All IsAction key.1

abbrev pub IsMode : String × Bindings → Type 0
IsMode mode = All IsKey mode.1

-- The document that says these bindings.
unfoldable pub items : List Fields → Items
items [] = nil
items (a ∷ rest) = cons (obj a) (items rest)

unfoldable pub mapping_fields : Bindings → Fields
unfolding items
mapping_fields [] = end
mapping_fields ((k, actions) ∷ rest) = field k (arr (items actions)) (mapping_fields rest)

unfoldable pub modes_fields : Dict Bindings → Fields
unfolding mapping_fields
modes_fields [] = end
modes_fields ((mode, mapping) ∷ rest) =
    field mode (obj (mapping_fields mapping)) (modes_fields rest)

text_eq : (s : String) (t : Option String) → is_text s t ≡ true → t ≡ some s
text_eq s none h = ground (arith, h)
text_eq s (some t) h = ground (arith, h, eq_iff t s)

module _ (a : Fields) (valid : is_valid_action a ≡ true) where
  domain : Option String
  domain = text_of (get_field "domain" a)

  flow-IsAction : is_text "flow" domain ≡ true → IsAction a
  unfolding is_valid_action domain
  flow-IsAction f = by_name (text_of (get_field "name" a)) refl
    where
      at : domain ≡ some "flow"
      at = text_eq "flow" domain f

      both :
          (is_text "run" (text_of (get_field "action" a)) && is_some (text_of (get_field "name" a)))
          ≡ true
      both = ground (arith, valid, at)

      run : text_of (get_field "action" a) ≡ some "run"
      run = text_eq "run" (text_of (get_field "action" a)) (ground (arith, both))

      by_name : (n : Option String) → text_of (get_field "name" a) ≡ n → IsAction a
      by_name none e = absurd (ground (arith, both, e))
      by_name (some name) e = flow name at run e

  ble-IsAction : is_text "ble" domain ≡ true → IsAction a
  unfolding is_valid_action domain
  ble-IsAction b = by_texts (text_of (get_field "usage" a)) (text_of (get_field "code" a)) refl refl
    where
      at : domain ≡ some "ble"
      at = text_eq "ble" domain b

      both :
          (is_some (text_of (get_field "usage" a)) && is_some (text_of (get_field "code" a))) ≡ true
      both = ground (arith, valid, at)

      by_texts :
          (u c : Option String)
          → text_of (get_field "usage" a) ≡ u
          → text_of (get_field "code" a) ≡ c
          → IsAction a
      by_texts none c e f = absurd (ground (arith, both, e))
      by_texts (some usage) none e f = absurd (ground (arith, both, f))
      by_texts (some usage) (some code) e f =
          ble usage code (record { domain = at; usage_text = e; code_text = f })

  valid-IsAction : IsAction a
  unfolding is_valid_action domain
  valid-IsAction = elim (Bool-cases (is_text "flow" domain)) [
    | inl f ↦ flow-IsAction f
    | inr f ↦ elim (Bool-cases (is_text "ble" domain)) [
      | inl b ↦ ble-IsAction b
      | inr b ↦ elim (Bool-cases (is_text "noop" domain)) [
        | inl n ↦ noop (text_eq "noop" domain n)
        | inr n ↦ speaker (text_eq "speaker" domain (ground (arith, valid, f, b, n)))
      ]
    ]
  ]

-- What holds of the value, where there is one.
abbrev pub OnSome {ℓ κ} : {A : Type ℓ} → (A → Type κ) → Option A → Type κ
OnSome P none = Unit
OnSome P (some a) = P a

module _ {A : Type 0} where
  before-OnSome :
      (P Q : List A → Type 0) (a : A) (rest : Option (List A))
      → OnSome P rest
      → ((xs : List A) → P xs → Q (a ∷ xs))
      → OnSome Q (before a rest)
  before-OnSome P Q a none h f = tt
  before-OnSome P Q a (some xs) h f = f xs h

  under-OnSome :
      (P : A → Type 0) (R Q : Dict A → Type 0) (k : String) (o : Option A) (rest : Option (Dict A))
      → OnSome P o
      → OnSome R rest
      → ((a : A) (d : Dict A) → P a → R d → Q ((k, a) ∷ d))
      → OnSome Q (under k o rest)
  under-OnSome P R Q k none rest p r f = tt
  under-OnSome P R Q k (some a) none p r f = tt
  under-OnSome P R Q k (some a) (some d) p r f = f a d p r

-- What a part of the document is read as says just that part, and each action of it is one.
abbrev SaysActions : Items → List Fields → Type 0
SaysActions its actions = (its ≡ items actions) × All IsAction actions

abbrev SaysKeys : Fields → Bindings → Type 0
SaysKeys fs keys = (fs ≡ mapping_fields keys) × All IsKey keys

abbrev pub SaysModes : Fields → Dict Bindings → Type 0
SaysModes fs modes = (fs ≡ modes_fields modes) × All IsMode modes

valid_actions-SaysActions : (its : Items) → OnSome (SaysActions its) (valid_actions its)
unfolding valid_actions items
valid_actions-SaysActions nil = (refl, tt)
valid_actions-SaysActions (cons (obj a) rest) =
    if_split (OnSome (SaysActions (cons (obj a) rest))) (is_valid_action a)
      (λ v.
        before-OnSome (SaysActions rest) (SaysActions (cons (obj a) rest)) a (valid_actions rest)
          (valid_actions-SaysActions rest)
          (λ xs h. (ap (cons (obj a)) h.0, (valid-IsAction a v, h.1))))
      (λ _. tt)
valid_actions-SaysActions (cons null rest) = tt
valid_actions-SaysActions (cons (bool _) rest) = tt
valid_actions-SaysActions (cons (int _) rest) = tt
valid_actions-SaysActions (cons (float _) rest) = tt
valid_actions-SaysActions (cons (str _) rest) = tt
valid_actions-SaysActions (cons (arr _) rest) = tt

valid_mapping-SaysKeys : (fs : Fields) → OnSome (SaysKeys fs) (valid_mapping fs)
unfolding valid_mapping mapping_fields
valid_mapping-SaysKeys end = (refl, tt)
valid_mapping-SaysKeys (field k (arr its) rest) =
    under-OnSome (SaysActions its) (SaysKeys rest) (SaysKeys (field k (arr its) rest)) k
      (valid_actions its) (valid_mapping rest) (valid_actions-SaysActions its)
      (valid_mapping-SaysKeys rest) (λ actions keys h r. (said h.0 r.0, (h.1, r.1)))
  where
    said :
        {i i' : Items} {f f' : Fields} → i ≡ i' → f ≡ f' → field k (arr i) f ≡ field k (arr i') f'
    said p q = cc
valid_mapping-SaysKeys (field k null rest) = tt
valid_mapping-SaysKeys (field k (bool _) rest) = tt
valid_mapping-SaysKeys (field k (int _) rest) = tt
valid_mapping-SaysKeys (field k (float _) rest) = tt
valid_mapping-SaysKeys (field k (str _) rest) = tt
valid_mapping-SaysKeys (field k (obj _) rest) = tt

pub valid_modes-SaysModes : (fs : Fields) → OnSome (SaysModes fs) (valid_modes fs)
unfolding valid_modes modes_fields
valid_modes-SaysModes end = (refl, tt)
valid_modes-SaysModes (field k (obj fs) rest) =
    under-OnSome (SaysKeys fs) (SaysModes rest) (SaysModes (field k (obj fs) rest)) k
      (valid_mapping fs) (valid_modes rest) (valid_mapping-SaysKeys fs) (valid_modes-SaysModes rest)
      (λ keys modes h r. (said h.0 r.0, (h.1, r.1)))
  where
    said :
        {i i' : Fields} {f f' : Fields} → i ≡ i' → f ≡ f' → field k (obj i) f ≡ field k (obj i') f'
    said p q = cc
valid_modes-SaysModes (field k null rest) = tt
valid_modes-SaysModes (field k (bool _) rest) = tt
valid_modes-SaysModes (field k (int _) rest) = tt
valid_modes-SaysModes (field k (float _) rest) = tt
valid_modes-SaysModes (field k (str _) rest) = tt
valid_modes-SaysModes (field k (arr _) rest) = tt
