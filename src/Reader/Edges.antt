-- ===== src/Reader/Edges.antt =====
-- pihub/unifying_reader.py: the edges of one open device, over any sequence of its events.
use pihub_remote_nrf.Prelude.{
  ℕ, String, ◌≡◌, refl, sym, ◌∙◌, Bool, true, false, Option, none, some, List, [], ◌∷◌, ◌==◌, ◌&&◌,
  nat_eq, arith, eq_iff, if_split, if_cases, if◌then◌else◌,
}
use pihub_remote_nrf.Prelude.Dict.{Dict}
use pihub_remote_nrf.Reader.Filter.{
  InputEvent, msc_scan, key, other_event, Edge, Filter, fresh, same_key, is_pressed, discard,
  logical_event, on_event, resolve_logical_key,
}

-- The last edge of a key went down; the edges are newest first.
unfoldable pub is_held : String → ℕ → List Edge → Bool
is_held rem_key code [] = false
is_held rem_key code (e ∷ es) =
    if e.rem_key == rem_key && nat_eq e.code code then e.is_down else is_held rem_key code es

-- No key goes down while it is down.
pub IsClean : List Edge → Type 0
IsClean [] = Unit
IsClean (e ∷ es) = ((e.is_down && is_held e.rem_key e.code es) ≡ false) × IsClean es

-- The filter after an event, and the edges so far with the event's own, newest first.
unfoldable pub noted : Filter × Option Edge → List Edge → Filter × List Edge
noted (f, none) es = (f, es)
noted (f, some e) es = (f, e ∷ es)

-- The keys that the filter has pressed are those whose last edge went down.
abbrev Agrees : Filter → List Edge → Type 0
Agrees f es =
    (rem_key : String) (code : ℕ) → is_pressed rem_key code f.pressed ≡ is_held rem_key code es

abbrev IsRead : Filter × List Edge → Type 0
IsRead (f, es) = Agrees f es × IsClean es

discarded :
    (k k' : String) (c c' : ℕ) (ids : List (String × ℕ))
    → is_pressed k c (discard k' c' ids)
      ≡ (if k' == k && nat_eq c' c then false else is_pressed k c ids)
unfolding discard is_pressed same_key
discarded k k' c c' [] = ground arith
discarded k k' c c' ((n, d) ∷ ids) =
    ground (arith, eq_iff n k', eq_iff n k, eq_iff k' k, discarded k k' c c' ids)

module _ (key_name : ℕ → Option String) (map : Dict String) where
  -- The filter and its edges, newest first, after the events of an opened device.
  unfoldable pub read : List InputEvent → Filter × List Edge → Filter × List Edge
  unfolding noted on_event
  read [] s = s
  read (event ∷ events) (f, es) = read events (noted (on_event key_name map event f) es)

  down-IsRead :
      (k : String) (c : ℕ) (f : Filter) (es : List Edge)
      → is_pressed k c f.pressed ≡ false
      → IsRead (f, es)
      → IsRead (
        record f { pressed = (k, c) ∷ f.pressed },
        record { rem_key = k; code = c; is_down = true } ∷ es,
      )
  unfolding is_held is_pressed same_key IsClean
  down-IsRead k c f es h (agrees, clean) =
      ((λ k' c'. ground (arith, agrees k' c')), (sym (agrees k c) ∙ h, clean))

  up-IsRead :
      (k : String) (c : ℕ) (f : Filter) (es : List Edge)
      → IsRead (f, es)
      → IsRead (
        record f { pressed = discard k c f.pressed },
        record { rem_key = k; code = c; is_down = false } ∷ es,
      )
  unfolding is_held IsClean
  up-IsRead k c f es (agrees, clean) =
      ((λ k' c'. ground (arith, agrees k' c', discarded k' k c' c f.pressed)), (refl, clean))

  logical-IsRead :
      (k : String) (c value : ℕ) (f : Filter) (es : List Edge)
      → IsRead (f, es)
      → IsRead (noted (logical_event key_name map k c value f) es)
  unfolding logical_event noted
  logical-IsRead k c value f es v = if_cases P (nat_eq value 2) v (
      if_cases P (nat_eq value 1)
        (if_split P (is_pressed k c f.pressed) (λ _. v) (λ h. down-IsRead k c f es h v))
        (up-IsRead k c f es v))
    where
      P : Filter × Option Edge → Type 0
      P r = IsRead (noted r es)

  on_event-IsRead :
      (event : InputEvent) (f : Filter) (es : List Edge)
      → IsRead (f, es)
      → IsRead (noted (on_event key_name map event f) es)
  unfolding on_event noted
  on_event-IsRead (msc_scan z) f es v = v
  on_event-IsRead other_event f es v = v
  on_event-IsRead (key code value) f es v =
      by_logical (resolve_logical_key key_name map code f.last_msc_scan)
    where
      by_logical :
          (r : Option String)
          → IsRead (
              noted
                (elim r [
                  | none ↦ (record f { last_msc_scan = none }, none)
                  | some k ↦
                      logical_event key_name map k code value (record f { last_msc_scan = none })
                ])
                es)
      by_logical none = v
      by_logical (some k) = logical-IsRead k code value (record f { last_msc_scan = none }) es v

  read-IsRead :
      (events : List InputEvent) (s : Filter × List Edge) → IsRead s → IsRead (read events s)
  unfolding read
  read-IsRead [] s v = v
  read-IsRead (event ∷ events) (f, es) v =
      read-IsRead events (noted (on_event key_name map event f) es) (on_event-IsRead event f es v)

  -- Over any sequence of an opened device's events, with any names of key codes and any scan code map, no
  -- key of a remote key goes down while it is down, and the filter has as pressed just the keys whose
  -- last edge went down.
  pub edges_alternate :
      (events : List InputEvent) (rem_key : String) (code : ℕ)
      → IsClean (read events (fresh, [])).1
        × (is_pressed rem_key code (read events (fresh, [])).0.pressed
            ≡ is_held rem_key code (read events (fresh, [])).1)
  unfolding read is_pressed is_held IsClean
  edges_alternate events rem_key code =
      let (agrees, clean) = read-IsRead events (fresh, []) ((λ k c. refl), tt) in
      (clean, agrees rem_key code)
