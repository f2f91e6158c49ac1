-- ===== src/Dispatcher/Timing.antt =====
-- Holds and repeats of pihub/dispatcher.py belong to keys that are down, and a hold's time is no
-- earlier than its key's press and its delay.
use pihub_remote_nrf.Prelude.{
  ℕ, ◌+◌, ◌≤◌, String, ◌≡◌, refl, ◌∙◌, inl, inr, true, false, not, some, List, [], ◌∷◌, ◌==◌, arith,
  All, All-append, All-keep_if, keep_if, Bool-cases, if_cases, if_split, eq_iff, eq_refl,
}
use pihub_remote_nrf.Prelude.Dict
use pihub_remote_nrf.Prelude.Dict.{Dict, get-put, get-remove, has-put, has-remove}
use pihub_remote_nrf.Dispatcher.State.{
  Dispatcher, Hold, submit, schedule_hold_action, has_hold, actions_for, cancel_hold_tasks,
  start_repeat, stop_repeat,
}
use pihub_remote_nrf.Dispatcher.Actions.{Done, run_flow}
use pihub_remote_nrf.Dispatcher.Edges.{
  update_press_state, finish_edge, on_usb_edge, do_actions, hold_fires, is_repeat_key, and_then,
}
use pihub_remote_nrf.Dispatcher.Rules.{Keeps, and_then-post, do_actions-keeps}

-- The hold's key is down, since a time from which its delay reaches no further than its time.
abbrev pub HeldFor : Dict ℕ → Hold → Type 0
HeldFor pressed h = (t0 : ℕ) × (Dict.get h.rem_key pressed ≡ some t0) × (t0 + h.min_hold_ms ≤ h.due)

pub record IsTimed (now : ℕ) (d : Dispatcher) : Type 0 where
  -- No key was pressed in the future.
  pub past : (key : String) (t : ℕ) → Dict.get key d.pressed_at ≡ some t → t ≤ now
  pub held : All (HeldFor d.pressed_at) d.hold_tasks
  pub repeating :
      (key : String) → Dict.has key d.repeat_tasks ≡ true → Dict.has key d.pressed_at ≡ true

eq_sym : (a b : String) → (a == b) ≡ false → (b == a) ≡ false
eq_sym a b h = ground (arith, eq_iff a b, eq_iff b a)

-- Nothing is left of a key's press.
pub record IsClear (key : String) (d : Dispatcher) : Type 0 where
  pub no_hold : All (λ (h : Hold). (h.rem_key == key) ≡ false) d.hold_tasks
  pub no_repeat : Dict.has key d.repeat_tasks ≡ false
  pub not_pressed : Dict.has key d.pressed_at ≡ false

-- No hold of this key.
abbrev pub NoHold : String → List Hold → Type 0
NoHold key = All (λ (h : Hold). (h.rem_key == key) ≡ false)

NoHold-cancel :
    (key : String) (hs : List Hold) → NoHold key (keep_if (λ h. not (h.rem_key == key)) hs)
NoHold-cancel key [] = tt
NoHold-cancel key (h ∷ hs) = ground (arith, NoHold-cancel key hs)

-- Holds of other keys stay held when a key's press time is written or dropped.
held_other :
    (key : String) (p p' : Dict ℕ) (hs : List Hold)
    → ((j : String) → (key == j) ≡ false → Dict.get j p' ≡ Dict.get j p)
    → NoHold key hs
    → All (HeldFor p) hs
    → All (HeldFor p') hs
held_other key p p' [] same none_of held = tt
held_other key p p' (h ∷ hs) same none_of held = (
  (held.0.0, same h.rem_key (eq_sym h.rem_key key none_of.0) ∙ held.0.1, held.0.2),
  held_other key p p' hs same none_of.1 held.1,
)

-- The holds of the other keys.
abbrev others : String → List Hold → List Hold
others key = keep_if (λ h. not (h.rem_key == key))

module _ (now : ℕ) (key : String) where
  -- During the actions of a key that is down.
  abbrev pub Down : Dispatcher → Type 0
  Down d = IsTimed now d × ((t0 : ℕ) × (Dict.get key d.pressed_at ≡ some t0) × (t0 ≤ now))

  schedule-Down :
      (h : Hold) (d : Dispatcher)
      → h.rem_key ≡ key
      → h.due ≡ now + h.min_hold_ms
      → Down d
      → Down (schedule_hold_action h d)
  unfolding schedule_hold_action
  schedule-Down h d k e (v, (t0, g, le)) =
      if_cases Down (has_hold h.rem_key h.action_index d.hold_tasks) (v, (t0, g, le))
        (
          record {
            past = v.past;
            held =
                All-append (HeldFor d.pressed_at) d.hold_tasks (h ∷ []) v.held
                  ((t0, rw k g, omega arith), tt);
            repeating = v.repeating;
          },
          (t0, g, le),
        )

  pub Down-Keeps : Keeps Down "down" key now
  unfolding run_flow submit
  Down-Keeps = record {
    sends = λ usage code d p.
        (record { past = p.0.past; held = p.0.held; repeating = p.0.repeating }, p.1);
    starts = λ name trigger d p.
        (record { past = p.0.past; held = p.0.held; repeating = p.0.repeating }, p.1);
    queues =
        λ job d e p. (record { past = p.0.past; held = p.0.held; repeating = p.0.repeating }, p.1);
    holds = λ index min_hold name trigger d e pos p. schedule-Down _ d refl refl p;
  }

  -- During the actions of a key that was released.
  abbrev Up : Dispatcher → Type 0
  Up d = IsTimed now d × NoHold key d.hold_tasks × (Dict.has key d.repeat_tasks ≡ false)

  up-ne-down : ¬ ◌≡◌ {A = String} "up" "down"
  up-ne-down e = ground (arith, eq_iff "up" "down")

  Up-Keeps : Keeps Up "up" key now
  unfolding run_flow submit
  Up-Keeps = record {
    sends = λ usage code d p.
        (record { past = p.0.past; held = p.0.held; repeating = p.0.repeating }, p.1, p.2);
    starts = λ name trigger d p.
        (record { past = p.0.past; held = p.0.held; repeating = p.0.repeating }, p.1, p.2);
    queues = λ job d e p. absurd (up-ne-down e);
    holds = λ index min_hold name trigger d e pos p. absurd (up-ne-down e);
  }

  -- What the clock's advance and the press of a key do.
  press-Down :
      (before : ℕ) (d : Dispatcher)
      → before ≤ now
      → IsTimed before d
      → Down (update_press_state key "down" now d)
  unfolding update_press_state cancel_hold_tasks
  press-Down before d le v = (
    record {
      past = λ k t g. ground (arith, get-put key k now d.pressed_at, v.past k t);
      held =
          held_other key d.pressed_at (Dict.put key now d.pressed_at) (others key d.hold_tasks)
            (λ j ne. rw (get-put key j now d.pressed_at, ne)) (NoHold-cancel key d.hold_tasks)
            (All-keep_if (HeldFor d.pressed_at) _ d.hold_tasks v.held);
      repeating = λ k h. ground (arith, has-put key k now d.pressed_at, v.repeating k);
    },
    (now, rw (get-put key key now d.pressed_at, eq_refl key), omega arith),
  )

  release-Up :
      (before : ℕ) (d : Dispatcher)
      → before ≤ now
      → IsTimed before d
      → Up (update_press_state key "up" now d)
  unfolding update_press_state cancel_hold_tasks stop_repeat
  release-Up before d le v = (
    record {
      past = λ k t g. ground (arith, v.past k t);
      held = All-keep_if (HeldFor d.pressed_at) _ d.hold_tasks v.held;
      repeating = λ k h. ground (arith, has-remove key k d.repeat_tasks, v.repeating k);
    },
    NoHold-cancel key d.hold_tasks,
    rw (has-remove key key d.repeat_tasks, eq_refl key),
  )

  finish_after_press : (d : Dispatcher) → Down d → IsTimed now (finish_edge key "down" now d).state
  unfolding finish_edge start_repeat
  finish_after_press d (v, (t0, g, le)) =
      if_cases (IsTimed now) (is_repeat_key key)
        (if_cases (IsTimed now) (Dict.has key d.repeat_tasks) v (record {
          past = v.past;
          held = v.held;
          repeating = λ k h. ground (
            arith,
            has-put key k (now + 400) d.repeat_tasks,
            eq_iff key k,
            v.repeating k,
            Dict.has_of_get key t0 d.pressed_at,
          );
        }))
        v

  finish_after_release : (d : Dispatcher) → Up d → IsTimed now (finish_edge key "up" now d).state
  unfolding finish_edge
  finish_after_release d (v, clear, still) = record {
    past = λ k t g. ground (arith, get-remove key k d.pressed_at, v.past k t);
    held =
        held_other key d.pressed_at (Dict.remove key d.pressed_at) d.hold_tasks
          (λ j ne. rw (get-remove key j d.pressed_at, ne)) clear v.held;
    repeating = λ k h. ground (arith, has-remove key k d.pressed_at, v.repeating k, eq_iff key k);
  }

  press_edge :
      (d : Dispatcher)
      → Down (update_press_state key "down" now d)
      → IsTimed now (on_usb_edge key "down" now d).state
  unfolding on_usb_edge
  press_edge d p =
      let d' = update_press_state key "down" now d in
      and_then-post Down (IsTimed now) (do_actions (actions_for key d') "down" key 0 now d')
        (finish_edge key "down" now) (do_actions-keeps Down-Keeps (actions_for key d') 0 d' p)
        (λ d p. p.0) finish_after_press

  release_edge :
      (d : Dispatcher)
      → Up (update_press_state key "up" now d)
      → IsTimed now (on_usb_edge key "up" now d).state
  unfolding on_usb_edge
  release_edge d p =
      let d' = update_press_state key "up" now d in
      and_then-post Up (IsTimed now) (do_actions (actions_for key d') "up" key 0 now d')
        (finish_edge key "up" now) (do_actions-keeps Up-Keeps (actions_for key d') 0 d' p)
        (λ d p. p.0) finish_after_release

  -- A key that was released has no hold, no repeat and no press time left, unless an action raised.
  finish_clears : (d : Dispatcher) → Up d → IsClear key (finish_edge key "up" now d).state
  unfolding finish_edge
  finish_clears d (v, clear, still) = record {
    no_hold = clear;
    no_repeat = still;
    not_pressed = rw (has-remove key key d.pressed_at, eq_refl key);
  }

pub later-IsTimed :
    (before now : ℕ) (d : Dispatcher) → before ≤ now → IsTimed before d → IsTimed now d
later-IsTimed before now d le v = record {
  past = λ k t g. omega (arith, v.past k t g);
  held = v.held;
  repeating = v.repeating;
}

pub edge-IsTimed :
    (before now : ℕ) (key edge : String) (d : Dispatcher)
    → before ≤ now
    → IsTimed before d
    → IsTimed now (on_usb_edge key edge now d).state
edge-IsTimed before now key edge d le v = elim (Bool-cases (edge == "down")) [
  | inl e ↦ rw ((eq_iff edge "down").0 e) (press_edge now key d (press-Down now key before d le v))
  | inr ne ↦ elim (Bool-cases (edge == "up")) [
    | inl e ↦
        rw ((eq_iff edge "up").0 e) (release_edge now key d (release-Up now key before d le v))
    | inr ne' ↦ unfold on_usb_edge in rw (ne, ne') (later-IsTimed before now d le v)
  ]
]

-- Where the press, hold and repeat times are consistent and no action raises, a key's release that is
-- handled leaves no hold, repeat or press time of the key.
pub release_clears_key :
    (before now : ℕ) (key : String) (d : Dispatcher)
    → before ≤ now
    → IsTimed before d
    → (on_usb_edge key "up" now d).failed ≡ false
    → IsClear key (on_usb_edge key "up" now d).state
unfolding on_usb_edge
release_clears_key before now key d le v ok =
    let d' = update_press_state key "up" now d in
    after (do_actions (actions_for key d') "up" key 0 now d')
      (do_actions-keeps (Up-Keeps now key) (actions_for key d') 0 d'
        (release-Up now key before d le v))
      ok
  where
    after :
        (r : Done)
        → Up now key r.state
        → (and_then r (finish_edge key "up" now)).failed ≡ false
        → IsClear key (and_then r (finish_edge key "up" now)).state
    after r p =
        if_split (λ (x : Done). x.failed ≡ false → IsClear key x.state) r.failed
          (λ e e'. ground arith) (λ e e'. finish_clears now key r.state p)

pub hold_fires-IsTimed :
    (now : ℕ) (h : Hold) (d : Dispatcher) → IsTimed now d → IsTimed now (hold_fires h d)
unfolding hold_fires run_flow
hold_fires-IsTimed now h d v =
    let rest = All-keep_if (HeldFor d.pressed_at) _ d.hold_tasks v.held in
    if_cases (IsTimed now) (Dict.has h.rem_key d.pressed_at)
      (record { past = v.past; held = rest; repeating = v.repeating })
      (record { past = v.past; held = rest; repeating = v.repeating })
