-- ===== src/Ble/Compiled.antt =====
-- The frames that compile_ble_frames of pihub/ble_dongle.py makes ahead of time, against those that
-- key_down and key_up encode on demand.
use pihub_remote_nrf.Prelude.{
  ℕ, String, ◌≡◌, refl, ap, sym, subst, ◌≢◌, ◌∙◌, ◌⊎◌, inl, inr, Option, none, some, List, [], ◌∷◌,
  ◌==◌, eq_iff, eq_refl, arith, Bool-cases, if◌then◌else◌,
}
use pihub_remote_nrf.Prelude.Dict
use pihub_remote_nrf.Prelude.Dict.{Dict, get-put}
use pihub_remote_nrf.Prelude.Json.{Fields, get_field, text_of}
use pihub_remote_nrf.Ble.Frames.{
  Bytes, CompiledBleFrames, HidKeymap, no_frames, encode_keyboard_down, encode_consumer_down,
  encode_keyboard_up, encode_consumer_up, enter, compile_pair, compile_texts, is_ble,
  compile_action, compile_actions, compile_bindings, compile_ble_frames,
}
use pihub_remote_nrf.Ble.Link.{
  Link, key_down, key_up, enqueue_some, compiled_key_down, compiled_key_up,
}

-- The four tables, with the usage and the encoder of each.
data Table : Type 0 where
  kb_down kb_up cc_down cc_up : Table

abbrev table : Table → CompiledBleFrames → Dict Bytes
table kb_down fs = fs.kb_down
table kb_up fs = fs.kb_up
table cc_down fs = fs.cc_down
table cc_up fs = fs.cc_up

abbrev usage_of : Table → String
usage_of kb_down = "keyboard"
usage_of kb_up = "keyboard"
usage_of cc_down = "consumer"
usage_of cc_up = "consumer"

abbrev encoder : Table → HidKeymap → String → Option Bytes
encoder kb_down = encode_keyboard_down
encoder kb_up = encode_keyboard_up
encoder cc_down = encode_consumer_down
encoder cc_up = encode_consumer_up

-- An action that sends this key over BLE.
pub record Binds (usage code : String) (a : Fields) : Type 0 where
  pub domain : text_of (get_field "domain" a) ≡ some "ble"
  pub usage_text : text_of (get_field "usage" a) ≡ some usage
  pub code_text : text_of (get_field "code" a) ≡ some code

-- One of the actions of a binding table sends this key.
abbrev pub BoundIn : String → String → List Fields → Type 0
BoundIn usage code [] = ⊥
BoundIn usage code (a ∷ actions) = Binds usage code a ⊎ BoundIn usage code actions

abbrev pub Bound : String → String → Dict (List Fields) → Type 0
Bound usage code [] = ⊥
Bound usage code ((rem_key, actions) ∷ rest) = BoundIn usage code actions ⊎ Bound usage code rest

module _ (hid : HidKeymap) where
  -- An action leaves a table alone or enters what its encoder gives for one code.
  pair_cases :
      (Q : Dict Bytes → Type 0) (t : Table) (usage c : String) (fs : CompiledBleFrames)
      → Q (table t fs)
      → Q (enter c (encoder t hid c) (table t fs))
      → Q (table t (compile_pair hid usage c fs))
  unfolding compile_pair
  pair_cases Q t usage c fs same entered = elim (Bool-cases (usage == "keyboard")) [
    | inl e ↦ rw e (keyboard t same entered)
    | inr e ↦ rw e (other t same entered)
  ]
    where
      keyboard :
          (t : Table)
          → Q (table t fs)
          → Q (enter c (encoder t hid c) (table t fs))
          → Q (
              table t (record fs {
                kb_down = enter c (encode_keyboard_down hid c) fs.kb_down;
                kb_up = enter c (encode_keyboard_up hid c) fs.kb_up;
              }))
      keyboard kb_down same entered = entered
      keyboard kb_up same entered = entered
      keyboard cc_down same entered = same
      keyboard cc_up same entered = same

      consumer :
          (t : Table)
          → Q (table t fs)
          → Q (enter c (encoder t hid c) (table t fs))
          → Q (
              table t (record fs {
                cc_down = enter c (encode_consumer_down hid c) fs.cc_down;
                cc_up = enter c (encode_consumer_up hid c) fs.cc_up;
              }))
      consumer kb_down same entered = same
      consumer kb_up same entered = same
      consumer cc_down same entered = entered
      consumer cc_up same entered = entered

      other :
          (t : Table)
          → Q (table t fs)
          → Q (enter c (encoder t hid c) (table t fs))
          → Q (
              table t (
                if usage == "consumer"
                then record fs {
                  cc_down = enter c (encode_consumer_down hid c) fs.cc_down;
                  cc_up = enter c (encode_consumer_up hid c) fs.cc_up;
                }
                else fs))
      other t same entered = elim (Bool-cases (usage == "consumer")) [
        | inl e ↦ rw e (consumer t same entered)
        | inr e ↦ rw e same
      ]

  texts_cases :
      (Q : Dict Bytes → Type 0) (t : Table) (usage code : Option String) (fs : CompiledBleFrames)
      → Q (table t fs)
      → ((c : String) → Q (enter c (encoder t hid c) (table t fs)))
      → Q (table t (compile_texts hid usage code fs))
  texts_cases Q t (some usage) (some code) fs same entered =
      pair_cases Q t usage code fs same (entered code)
  texts_cases Q t (some usage) none fs same entered = same
  texts_cases Q t none code fs same entered = same

  action_cases :
      (Q : Dict Bytes → Type 0) (t : Table) (a : Fields) (fs : CompiledBleFrames)
      → Q (table t fs)
      → ((c : String) → Q (enter c (encoder t hid c) (table t fs)))
      → Q (table t (compile_action hid a fs))
  unfolding compile_action
  action_cases Q t a fs same entered = elim (Bool-cases (is_ble (text_of (get_field "domain" a)))) [
    | inl e ↦ rw e (
        texts_cases Q t (text_of (get_field "usage" a)) (text_of (get_field "code" a)) fs same
          entered)
    | inr e ↦ rw e same
  ]

  -- A fact about the entry of a code that holds of what the encoder gives is kept.
  enter_keeps :
      (P : Option Bytes → Type 0) (enc : String → Option Bytes) (c code : String) (d : Dict Bytes)
      → P (enc code)
      → P (Dict.get code d)
      → P (Dict.get code (enter c (enc c) d))
  enter_keeps P enc c code d new old = go (enc c) refl
    where
      put_case :
          (b : ℕ) (bs : Bytes) → enc c ≡ some (b ∷ bs) → P (Dict.get code (Dict.put c (b ∷ bs) d))
      put_case b bs e = elim (Bool-cases (c == code)) [
        | inl same ↦
            rw (get-put c code (b ∷ bs) d, same)
              (subst P (ap enc (sym ((eq_iff c code).0 same)) ∙ e) new)
        | inr other ↦ rw (get-put c code (b ∷ bs) d, other) old
      ]

      go : (p : Option Bytes) → enc c ≡ p → P (Dict.get code (enter c p d))
      go none e = old
      go (some []) e = old
      go (some (b ∷ bs)) e = put_case b bs e

  actions_keep :
      (P : Option Bytes → Type 0) (t : Table) (code : String) (actions : List Fields)
      (fs : CompiledBleFrames)
      → P (encoder t hid code)
      → P (Dict.get code (table t fs))
      → P (Dict.get code (table t (compile_actions hid actions fs)))
  unfolding compile_actions
  actions_keep P t code [] fs new old = old
  actions_keep P t code (a ∷ actions) fs new old =
      actions_keep P t code actions (compile_action hid a fs) new (
        action_cases (λ d. P (Dict.get code d)) t a fs old
          (λ c. enter_keeps P (encoder t hid) c code (table t fs) new old))

  table-Binds :
      (t : Table) (code : String) (a : Fields) (fs : CompiledBleFrames)
      → Binds (usage_of t) code a
      → table t (compile_action hid a fs) ≡ enter code (encoder t hid code) (table t fs)
  unfolding compile_action
  table-Binds kb_down code a fs v = rw (v.domain, v.usage_text, v.code_text)
  table-Binds kb_up code a fs v = rw (v.domain, v.usage_text, v.code_text)
  table-Binds cc_down code a fs v = rw (v.domain, v.usage_text, v.code_text)
  table-Binds cc_up code a fs v = rw (v.domain, v.usage_text, v.code_text)

  bindings_keep :
      (P : Option Bytes → Type 0) (t : Table) (code : String) (bindings : Dict (List Fields))
      (fs : CompiledBleFrames)
      → P (encoder t hid code)
      → P (Dict.get code (table t fs))
      → P (Dict.get code (table t (compile_bindings hid bindings fs)))
  unfolding compile_bindings
  bindings_keep P t code [] fs new old = old
  bindings_keep P t code ((rem_key, actions) ∷ rest) fs new old =
      bindings_keep P t code rest (compile_actions hid actions fs) new
        (actions_keep P t code actions fs new old)

  encoder-ne-empty : (t : Table) (code : String) → encoder t hid code ≢ some []
  unfolding encode_keyboard_down encode_keyboard_up encode_consumer_down encode_consumer_up
  encoder-ne-empty kb_down code h = ground arith
  encoder-ne-empty kb_up code h = ground arith
  encoder-ne-empty cc_down code h = ground arith
  encoder-ne-empty cc_up code h = ground arith

  -- Nothing entered under a code yet, or what the encoder gives.
  abbrev Entered : Table → String → Option Bytes → Type 0
  Entered t code o = (o ≡ none) ⊎ (o ≡ encoder t hid code)

  enter_self :
      (p : Option Bytes) (code : String) (d : Dict Bytes)
      → p ≢ some []
      → (Dict.get code d ≡ none) ⊎ (Dict.get code d ≡ p)
      → Dict.get code (enter code p d) ≡ p
  enter_self none code d h (inl e) = e
  enter_self none code d h (inr e) = e
  enter_self (some []) code d h o = absurd (h refl)
  enter_self (some (b ∷ bs)) code d h o = rw (get-put code code (b ∷ bs) d, eq_refl code)

  actions_enter :
      (t : Table) (code : String) (actions : List Fields) (fs : CompiledBleFrames)
      → BoundIn (usage_of t) code actions
      → Entered t code (Dict.get code (table t fs))
      → Dict.get code (table t (compile_actions hid actions fs)) ≡ encoder t hid code
  unfolding compile_actions
  actions_enter t code [] fs b o = absurd b
  actions_enter t code (a ∷ actions) fs (inl v) o =
      actions_keep (λ p. p ≡ encoder t hid code) t code actions (compile_action hid a fs) refl
        (rw (table-Binds t code a fs v)
          (enter_self (encoder t hid code) code (table t fs) (encoder-ne-empty t code) o))
  actions_enter t code (a ∷ actions) fs (inr b) o =
      actions_enter t code actions (compile_action hid a fs) b (
        action_cases (λ d. Entered t code (Dict.get code d)) t a fs o
          (λ c. enter_keeps (Entered t code) (encoder t hid) c code (table t fs) (inr refl) o))

  bindings_enter :
      (t : Table) (code : String) (bindings : Dict (List Fields)) (fs : CompiledBleFrames)
      → Bound (usage_of t) code bindings
      → Entered t code (Dict.get code (table t fs))
      → Dict.get code (table t (compile_bindings hid bindings fs)) ≡ encoder t hid code
  unfolding compile_bindings
  bindings_enter t code [] fs b o = absurd b
  bindings_enter t code ((rem_key, actions) ∷ rest) fs (inl b) o =
      bindings_keep (λ p. p ≡ encoder t hid code) t code rest (compile_actions hid actions fs) refl
        (actions_enter t code actions fs b o)
  bindings_enter t code ((rem_key, actions) ∷ rest) fs (inr b) o =
      bindings_enter t code rest (compile_actions hid actions fs) b
        (actions_keep (Entered t code) t code actions fs (inr refl) o)

  compiled_table :
      (t : Table) (code : String) (bindings : Dict (List Fields))
      → Bound (usage_of t) code bindings
      → Dict.get code (table t (compile_ble_frames hid bindings)) ≡ encoder t hid code
  unfolding compile_ble_frames Dict.get
  compiled_table t code bindings b = bindings_enter t code bindings no_frames b (empty_table t)
    where
      empty_table : (t : Table) → Entered t code (Dict.get code (table t no_frames))
      empty_table kb_down = inl refl
      empty_table kb_up = inl refl
      empty_table cc_down = inl refl
      empty_table cc_up = inl refl

-- For a keyboard or consumer key that some action of a mode's bindings sends, pressing and
-- releasing it with the compiled frames does to the link what encoding it on demand does.
pub compiled-eq-direct :
    (bindings : Dict (List Fields)) (usage code : String) (l : Link)
    → (usage ≡ "keyboard") ⊎ (usage ≡ "consumer")
    → Bound usage code bindings
    → (compiled_key_down (compile_ble_frames l.hid bindings) usage code l ≡ key_down usage code l)
      × (compiled_key_up (compile_ble_frames l.hid bindings) usage code l ≡ key_up usage code l)
unfolding compiled_key_down compiled_key_up key_down key_up
compiled-eq-direct bindings usage code l (inl e) b =
    let b' = subst (λ u. Bound u code bindings) e b in
    rw e (
      ap (λ o. enqueue_some o l) (compiled_table l.hid kb_down code bindings b'),
      ap (λ o. enqueue_some o l) (compiled_table l.hid kb_up code bindings b'),
    )
compiled-eq-direct bindings usage code l (inr e) b =
    let b' = subst (λ u. Bound u code bindings) e b in
    rw e (
      ap (λ o. enqueue_some o l) (compiled_table l.hid cc_down code bindings b'),
      ap (λ o. enqueue_some o l) (compiled_table l.hid cc_up code bindings b'),
    )
