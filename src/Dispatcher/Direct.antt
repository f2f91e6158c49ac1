-- ===== src/Dispatcher/Direct.antt =====
-- pihub/dispatcher.py and pihub/ble_dongle.py: from an accepted keymap, by the frames compiled for its
-- modes, to what the link is asked to send.
use pihub_remote_nrf.Prelude.{
  ℕ, ◌≡◌, refl, sym, ap, subst, ◌∙◌, String, Bool, false, ◌⊎◌, inl, inr, Option, some, List, [],
  ◌∷◌, ◌==◌, arith, eq_iff, All, All-In, In, Bool-cases,
}
use pihub_remote_nrf.Prelude.Dict
use pihub_remote_nrf.Prelude.Dict.{Dict}
use pihub_remote_nrf.Prelude.Json.{Fields, obj, get_field, text_of}
use pihub_remote_nrf.Ble.Frames.{compile_ble_frames}
use pihub_remote_nrf.Ble.Link.{Link, key_down, key_up}
use pihub_remote_nrf.Ble.Compiled.{Binds, Bound, BoundIn, compiled-eq-direct}
use pihub_remote_nrf.Dispatcher.State.{
  Bindings, Dispatcher, new_dispatcher, set_mode_bindings, compile_modes, frames_of,
}
use pihub_remote_nrf.Dispatcher.Actions.{done, do_action, handle_ble_action, ble_texts, link_action}
use pihub_remote_nrf.Dispatcher.Keymap.{validate_keymap}
use pihub_remote_nrf.Dispatcher.Routing.{IsAction, noop, speaker, flow, ble, IsKey}
use pihub_remote_nrf.Dispatcher.Accepted.{validate_keymap_lem}

-- The action sends its key's report on both edges, as the link encodes it on demand.
pub data Sends (a : Fields) (rem_key : String) (index now : ℕ) (d : Dispatcher) : Type 0 where
  sends :
      (usage code : String)
      → Binds usage code a
      → do_action a "down" rem_key index now d ≡ done (record d { ble = key_down usage code d.ble })
      → do_action a "up" rem_key index now d ≡ done (record d { ble = key_up usage code d.ble })
      → Sends a rem_key index now d

compile_modes-get :
    (l : Link) (mode : String) (bindings : Dict Bindings) (mapping : Bindings)
    → Dict.get mode bindings ≡ some mapping
    → Dict.get mode (compile_modes l bindings) ≡ some (compile_ble_frames l.hid mapping)
unfolding compile_modes Dict.get
compile_modes-get l mode [] mapping h = absurd (ground (arith, h))
compile_modes-get l mode ((k, m) ∷ rest) mapping h =
    ground (arith, h, compile_modes-get l mode rest mapping)

get-All :
    {V : Type 0} (P : V → Type 0) (k : String) (d : Dict V) (v : V)
    → All (λ e. P e.1) d
    → Dict.get k d ≡ some v
    → P v
unfolding Dict.get
get-All P k [] v h e = absurd (ground (arith, e))
get-All P k ((j, w) ∷ d) v h e = elim (Bool-cases (j == k)) [
  | inl t ↦ subst P (ground (arith, e, t)) h.0
  | inr f ↦ get-All P k d v h.1 (ground (arith, e, f))
]

In-BoundIn :
    (usage code : String) (a : Fields) (actions : List Fields)
    → Binds usage code a
    → In a actions
    → BoundIn usage code actions
In-BoundIn usage code a [] b i = i
In-BoundIn usage code a (x ∷ actions) b (inl e) = inl (subst (Binds usage code) (sym e) b)
In-BoundIn usage code a (x ∷ actions) b (inr i) = inr (In-BoundIn usage code a actions b i)

get-Bound :
    (usage code rem_key : String) (mapping : Bindings) (actions : List Fields)
    → Dict.get rem_key mapping ≡ some actions
    → BoundIn usage code actions
    → Bound usage code mapping
unfolding Dict.get
get-Bound usage code rem_key [] actions h b = absurd (ground (arith, h))
get-Bound usage code rem_key ((k, as') ∷ rest) actions h b = elim (Bool-cases (k == rem_key)) [
  | inl t ↦ inl (subst (BoundIn usage code) (sym (ground (arith, h, t))) b)
  | inr f ↦ inr (get-Bound usage code rem_key rest actions (ground (arith, h, f)) b)
]

ble-action :
    (a : Fields) (edge rem_key : String) (index now : ℕ) (d : Dispatcher) (usage code : String)
    → Binds usage code a
    → do_action a edge rem_key index now d
      ≡ done (record d { ble = link_action d.active_frames edge usage code d.ble })
unfolding do_action handle_ble_action ble_texts
ble-action a edge rem_key index now d usage code b = rw (b.domain, b.usage_text, b.code_text) refl

module _ (bindings : Dict Bindings) (l : Link) (can_run_flow : Bool) (mode rem_key : String)
    (mapping : Bindings) (actions : List Fields) (a : Fields) (index now : ℕ)
    (in_mode : Dict.get mode bindings ≡ some mapping)
    (on_key : Dict.get rem_key mapping ≡ some actions) (of_key : In a actions) where
  -- The dispatcher of these bindings, in this mode.
  abbrev d : Dispatcher
  d = set_mode_bindings (some mode) (new_dispatcher bindings l can_run_flow)

  frames : d.active_frames ≡ some (compile_ble_frames l.hid mapping)
  unfolding set_mode_bindings frames_of new_dispatcher
  frames = compile_modes-get l mode bindings mapping in_mode

  -- An action of these bindings that sends a keyboard or consumer key does to the link, on the compiled
  -- frames, what encoding the key on demand does.
  bound-Sends :
      (usage code : String)
      → Binds usage code a
      → (usage ≡ "keyboard") ⊎ (usage ≡ "consumer")
      → Sends a rem_key index now d
  unfolding set_mode_bindings new_dispatcher link_action
  bound-Sends usage code b known =
      let bound =
        get-Bound usage code rem_key mapping actions on_key
          (In-BoundIn usage code a actions b of_key) in
      let same = compiled-eq-direct mapping usage code l known bound in
      sends usage code b
        (ble-action a "down" rem_key index now d usage code b
          ∙ ap (λ f. done (record d { ble = link_action f "down" usage code d.ble })) frames
          ∙ ap (λ l. done (record d { ble = l })) same.0)
        (ble-action a "up" rem_key index now d usage code b
          ∙ ap (λ f. done (record d { ble = link_action f "up" usage code d.ble })) frames
          ∙ ap (λ l. done (record d { ble = l })) same.1)

two_texts : (o : Option String) (s t : String) → o ≡ some s → o ≡ some t → (s == t) ≡ false → ⊥
two_texts o s t e f h = ground (arith, sym e ∙ f, eq_iff s t, h)

known_usage :
    {o : Option String} (usage : String)
    → o ≡ some usage
    → (o ≡ some "keyboard") ⊎ (o ≡ some "consumer")
    → (usage ≡ "keyboard") ⊎ (usage ≡ "consumer")
known_usage usage e (inl k) = inl (ground (arith, sym e ∙ k))
known_usage usage e (inr k) = inr (ground (arith, sym e ∙ k))

-- In a mode of an accepted keymap, every action on a key whose domain is ble and whose usage is keyboard or
-- consumer has the text of a code, and on the key's edges it does to the link just what encoding that code on
-- demand does, though it is sent from the frames compiled when the dispatcher was made.
pub accepted_ble_action-Sends :
    (doc : Fields) (bindings : Dict Bindings) (l : Link) (can_run_flow : Bool)
    (mode rem_key : String) (mapping : Bindings) (actions : List Fields) (a : Fields)
    (index now : ℕ)
    → validate_keymap (obj doc) ≡ some bindings
    → Dict.get mode bindings ≡ some mapping
    → Dict.get rem_key mapping ≡ some actions
    → In a actions
    → text_of (get_field "domain" a) ≡ some "ble"
    → (text_of (get_field "usage" a) ≡ some "keyboard")
      ⊎ (text_of (get_field "usage" a) ≡ some "consumer")
    → Sends a rem_key index now
        (set_mode_bindings (some mode) (new_dispatcher bindings l can_run_flow))
accepted_ble_action-Sends doc bindings l can_run_flow mode rem_key mapping actions a index now
      accepted in_mode on_key of_key is_ble known =
    by_action (
      All-In IsAction a actions
        (get-All (All IsAction) rem_key mapping actions
          (get-All (All IsKey) mode bindings mapping (validate_keymap_lem doc bindings accepted).1
            in_mode)
          on_key)
        of_key)
  where
    by_action :
        IsAction a
        → Sends a rem_key index now
            (set_mode_bindings (some mode) (new_dispatcher bindings l can_run_flow))
    by_action (noop e) = absurd (two_texts _ _ _ is_ble e refl)
    by_action (speaker e) = absurd (two_texts _ _ _ is_ble e refl)
    by_action (flow name e _ _) = absurd (two_texts _ _ _ is_ble e refl)
    by_action (ble usage code b) =
        bound-Sends bindings l can_run_flow mode rem_key mapping actions a index now in_mode on_key
          of_key usage code b (known_usage usage b.usage_text known)
