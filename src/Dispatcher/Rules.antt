-- ===== src/Dispatcher/Rules.antt =====
-- One rule for what a key's actions keep: a predicate that every effect of an action keeps is kept
-- by the actions of an edge and by a round of a repeat (_do_action of pihub/dispatcher.py).
use pihub_remote_nrf.Prelude.{
  ℕ, ◌+◌, ◌<◌, String, ◌≡◌, inl, inr, not, Option, none, some, List, [], ◌∷◌, ◌==◌, ◌&&◌, ◌||◌, ltb,
  arith, if_cases, if_split, and_right, Bool-cases, eq_iff,
}
use pihub_remote_nrf.Prelude.Text.{is_empty}
use pihub_remote_nrf.Prelude.Dict
use pihub_remote_nrf.Prelude.Json.{Fields, get_field, text_of}
use pihub_remote_nrf.Validation.{parse_ms, Ms, given, default, raised}
use pihub_remote_nrf.Dispatcher.State.{Dispatcher, Job, submit, schedule_hold_action}
use pihub_remote_nrf.Dispatcher.Actions.{
  Done, is_text, when_of, link_action, ble_texts, handle_ble_action, run_flow, hold_ms, held_for,
  flow_up, flow_down, flow_edges, flow_with, flow_named, handle_flow_action, do_action,
}
use pihub_remote_nrf.Dispatcher.Edges.{and_then, do_actions, repeat_actions}

-- The effects that the actions of this key have on this edge at this time, each keeping `P`.
pub record Keeps (P : Dispatcher → Type 0) (edge rem_key : String) (now : ℕ) : Type 0 where
  pub sends :
      (usage code : String) (d : Dispatcher)
      → P d
      → P (record d { ble = link_action d.active_frames edge usage code d.ble })
  pub starts : (name trigger : String) (d : Dispatcher) → P d → P (run_flow name trigger d)
  pub queues : (job : Job) (d : Dispatcher) → edge ≡ "down" → P d → P (submit job d)
  pub holds :
      (index min_hold : ℕ) (name trigger : String) (d : Dispatcher)
      → edge ≡ "down"
      → 0 < min_hold
      → P d
      → P (
          schedule_hold_action
            (record {
              rem_key = rem_key;
              action_index = index;
              min_hold_ms = min_hold;
              due = now + min_hold;
              name = name;
              trigger = trigger;
            })
            d)

-- What the first handler leaves, whether it raised or not, and what the rest makes of it.
pub and_then-post :
    (P Q : Dispatcher → Type 0) (r : Done) (k : Dispatcher → Done)
    → P r.state
    → ((d : Dispatcher) → P d → Q d)
    → ((d : Dispatcher) → P d → Q (k d).state)
    → Q (and_then r k).state
and_then-post P Q r k p weaken q =
    if_cases (λ (r : Done). Q r.state) r.failed (weaken r.state p) (q r.state p)

module _ {P : Dispatcher → Type 0} {edge rem_key : String} {now : ℕ}
    (k : Keeps P edge rem_key now) where
  flow_up-keeps :
      (name : String) (min_hold : ℕ) (d : Dispatcher)
      → P d
      → P (flow_up name rem_key min_hold now d)
  unfolding flow_up
  flow_up-keeps name min_hold d p =
      if_cases P (ltb 0 min_hold && not (is_empty rem_key))
        (if_cases P (held_for (Dict.get rem_key d.pressed_at) now min_hold) (k.starts _ _ d p) p)
        (k.starts _ _ d p)

  flow_down-keeps :
      (name : String) (index min_hold : ℕ) (d : Dispatcher)
      → edge ≡ "down"
      → P d
      → P (flow_down name rem_key index min_hold now d)
  unfolding flow_down
  flow_down-keeps name index min_hold d e p = elim (Bool-cases (ltb 0 min_hold)) [
    | inl held ↦ rw held (k.holds index min_hold name _ d e (ground arith) p)
    | inr free ↦ rw free (k.starts name _ d p)
  ]

  flow_edges-keeps :
      (when : Option String) (name : String) (index min_hold : ℕ) (d : Dispatcher)
      → P d
      → P (flow_edges when edge name rem_key index min_hold now d)
  unfolding flow_edges
  flow_edges-keeps when name index min_hold d p =
      if_cases P (is_text "up" when && edge == "up") (flow_up-keeps name min_hold d p) (
        if_split P (is_text "down" when && edge == "down")
          (λ e.
            flow_down-keeps name index min_hold d
              ((eq_iff edge "down").0 (and_right (is_text "down" when) (edge == "down") e)) p)
          (λ _. p))

  flow_with-keeps :
      (ms : Ms) (when : Option String) (name : String) (index : ℕ) (d : Dispatcher)
      → P d
      → P (flow_with ms when edge name rem_key index now d).state
  unfolding flow_with
  flow_with-keeps raised when name index d p = p
  flow_with-keeps default when name index d p = flow_edges-keeps when name index 0 d p
  flow_with-keeps (given z) when name index d p = flow_edges-keeps when name index (hold_ms z) d p

  handle_flow_action-keeps :
      (a : Fields) (index : ℕ) (d : Dispatcher)
      → P d
      → P (handle_flow_action a edge rem_key index now d).state
  unfolding handle_flow_action
  handle_flow_action-keeps a index d p =
      if_cases (λ (r : Done). P r.state) (not (is_text "run" (text_of (get_field "action" a)))) p
        (if_cases (λ (r : Done). P r.state) (not d.can_run_flow) p
          (named (text_of (get_field "name" a))))
    where
      named : (name : Option String) → P (flow_named name a edge rem_key index now d).state
      named none = p
      named (some name) =
          if_cases (λ (r : Done). P r.state) (is_empty name) p
            (flow_with-keeps (parse_ms 0 5000 (get_field "min_hold_ms" a)) (when_of a) name index d
              p)

  handle_ble_action-keeps : (a : Fields) (d : Dispatcher) → P d → P (handle_ble_action a edge d)
  unfolding handle_ble_action
  handle_ble_action-keeps a d p =
      texts (text_of (get_field "usage" a)) (text_of (get_field "code" a))
    where
      texts : (usage code : Option String) → P (ble_texts usage code edge d)
      texts (some usage) (some code) = k.sends usage code d p
      texts (some usage) none = p
      texts none code = p

  pub do_action-keeps :
      (a : Fields) (index : ℕ) (d : Dispatcher)
      → P d
      → P (do_action a edge rem_key index now d).state
  unfolding do_action
  do_action-keeps a index d p =
      let domain = text_of (get_field "domain" a) in
      if_cases (λ (r : Done). P r.state) (is_text "noop" domain) p
        (if_cases (λ (r : Done). P r.state)
          (not (is_text "ble" domain) && not (is_text edge (when_of a))) p
          (if_cases (λ (r : Done). P r.state) (is_text "ble" domain) (handle_ble_action-keeps a d p)
            (if_cases (λ (r : Done). P r.state) (is_text "flow" domain)
              (handle_flow_action-keeps a index d p)
              (if_split (λ (r : Done). P r.state) (is_text "speaker" domain && edge == "down")
                (λ e.
                  k.queues _ d
                    ((eq_iff edge "down").0
                      (and_right (is_text "speaker" domain) (edge == "down") e))
                    p)
                (λ _. p)))))

  pub do_actions-keeps :
      (actions : List Fields) (index : ℕ) (d : Dispatcher)
      → P d
      → P (do_actions actions edge rem_key index now d).state
  unfolding do_actions
  do_actions-keeps [] index d p = p
  do_actions-keeps (a ∷ rest) index d p =
      and_then-post P P _ (do_actions rest edge rem_key (index + 1) now)
        (do_action-keeps a index d p) (λ d' p'. p')
        (λ d' p'. do_actions-keeps rest (index + 1) d' p')

-- A round of a repeat runs the actions on the edge "down".
pub repeat_actions-keeps :
    {P : Dispatcher → Type 0} {rem_key : String} {now : ℕ}
    → Keeps P "down" rem_key now
    → (actions : List Fields) (index : ℕ) (d : Dispatcher) → P d
    → P (repeat_actions actions rem_key index now d).state
unfolding repeat_actions
repeat_actions-keeps k [] index d p = p
repeat_actions-keeps {P} {rem_key} {now} k (a ∷ rest) index d p =
    and_then-post P P _ (repeat_actions rest rem_key (index + 1) now)
      (if_cases (λ (r : Done). P r.state)
        (is_text "ble" (text_of (get_field "domain" a)) || not (is_text "down" (when_of a))) p
        (do_action-keeps k a index d p))
      (λ d' p'. p') (λ d' p'. repeat_actions-keeps k rest (index + 1) d' p')
