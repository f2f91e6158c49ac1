-- ===== src/Prelude/Text/Strip.antt =====
-- Stripping a text that is stripped changes nothing.
use Prim.Native.Char.{Char, code}
use Prim.Native.String.{String}
use mathlib.Core.Path.{◌≡◌, refl, ap, ◌∙◌}
use mathlib.Core.Bool.{false}
use mathlib.Core.Logic.{inl, inr}
use pihub_remote_nrf.Prelude.Tests.{Bool-cases}
use pihub_remote_nrf.Prelude.Text.{is_space, lstrip, rstrip, strip, keep_front}

-- The text does not begin with a space.
abbrev Starts : String → Type 0
Starts String.[] = Unit
Starts (String.◌∷◌ c s) = is_space (code c) ≡ false

lstrip-Starts : (s : String) → Starts (lstrip s)
unfolding lstrip
lstrip-Starts String.[] = tt
lstrip-Starts (String.◌∷◌ c s) = elim (Bool-cases (is_space (code c))) [
  | inl e ↦ rw e (lstrip-Starts s)
  | inr e ↦ rw e e
]

keep_front-Starts :
    (c : Char) (r : String) → is_space (code c) ≡ false → Starts (keep_front false c r)
keep_front-Starts c String.[] h = h
keep_front-Starts c (String.◌∷◌ d r) h = h

rstrip-Starts : (s : String) → Starts s → Starts (rstrip s)
unfolding rstrip
rstrip-Starts String.[] h = tt
rstrip-Starts (String.◌∷◌ c s) h = rw h (keep_front-Starts c (rstrip s) h)

lstrip-Starts_id : (s : String) → Starts s → lstrip s ≡ s
unfolding lstrip
lstrip-Starts_id String.[] h = refl
lstrip-Starts_id (String.◌∷◌ c s) h = rw h

rstrip-keep_front :
    (c : Char) (r : String)
    → rstrip r ≡ r
    → rstrip (keep_front (is_space (code c)) c r) ≡ keep_front (is_space (code c)) c r
unfolding rstrip
rstrip-keep_front c String.[] h = elim (Bool-cases (is_space (code c))) [
  | inl e ↦ rw e
  | inr e ↦ rw e (rw e)
]
rstrip-keep_front c (String.◌∷◌ d r) h = rw h

rstrip-rstrip : (s : String) → rstrip (rstrip s) ≡ rstrip s
unfolding rstrip
rstrip-rstrip String.[] = refl
rstrip-rstrip (String.◌∷◌ c s) = rstrip-keep_front c (rstrip s) (rstrip-rstrip s)

pub strip-strip : (s : String) → strip (strip s) ≡ strip s
unfolding strip
strip-strip s =
    ap rstrip (lstrip-Starts_id (rstrip (lstrip s)) (rstrip-Starts (lstrip s) (lstrip-Starts s)))
    ∙ rstrip-rstrip (lstrip s)
