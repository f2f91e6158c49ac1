-- ===== src/Prelude/Text.antt =====
-- Python's operations on `str` that the program uses, over the native texts: strip, lower,
-- startswith, split, and the conversion int(). Case and digits are those of ASCII.
pub mod Strip
use Prim.Native.Nat.{ℕ, zero, suc, ◌-◌, ◌/◌, ◌%◌, ◌<◌, compare, Ordering}
use Prim.Native.Char.{Char, code, char, IsScalar}
use Prim.Native.String.{String, char_at, count}
use mathlib.Core.Path.{◌≡◌}
use mathlib.Core.Bool.{Bool, true, false, ◌&&◌, ◌||◌}
use mathlib.Core.Logic.{dite}
use native.Mathlib.Decide.{dec_lt}
use native.Mathlib.Omega.{arith}
use mathlib.Core.List.{List, [], ◌∷◌}
use mathlib.Core.Option.{Option, none, some}
use pihub_remote_nrf.Prelude.Tests.{leb, nat_eq, if◌then◌else◌}

-- The characters of str.isspace().
unfoldable pub is_space : ℕ → Bool
is_space c =
    (leb 9 c && leb c 13)
    || (leb 28 c && leb c 32)
    || nat_eq c 133
    || nat_eq c 160
    || nat_eq c 5760
    || (leb 8192 c && leb c 8202)
    || nat_eq c 8232
    || nat_eq c 8233
    || nat_eq c 8239
    || nat_eq c 8287
    || nat_eq c 12288

-- s.lstrip()
unfoldable pub lstrip : String → String
unfolding is_space
lstrip String.[] = String.[]
lstrip (String.◌∷◌ c s) = let rest = lstrip s in if is_space (code c) then rest else String.◌∷◌ c s

-- A character in front of what is left of a text after its end was stripped.
abbrev pub keep_front : Bool → Char → String → String
keep_front b c (String.◌∷◌ d s) = String.◌∷◌ c (String.◌∷◌ d s)
keep_front b c String.[] = if b then String.[] else String.◌∷◌ c String.[]

-- s.rstrip()
unfoldable pub rstrip : String → String
unfolding is_space
rstrip String.[] = String.[]
rstrip (String.◌∷◌ c s) = keep_front (is_space (code c)) c (rstrip s)

-- s.strip()
unfoldable pub strip : String → String
unfolding lstrip rstrip
strip s = rstrip (lstrip s)

to_lower : Char → Char
to_lower c =
    if leb b'A' (code c) && leb (code c) b'Z'
    then char_at "abcdefghijklmnopqrstuvwxyz" (code c - b'A')
    else c

-- s.lower()
unfoldable pub lower : String → String
unfolding to_lower
lower String.[] = String.[]
lower (String.◌∷◌ c s) = String.◌∷◌ (to_lower c) (lower s)

unfoldable pub is_empty : String → Bool
is_empty String.[] = true
is_empty (String.◌∷◌ c s) = false

-- bytes.decode("ascii", errors="replace"), a byte at a time.
scalar_of_lt : (n : ℕ) → compare n 55296 ≡ Ordering.lt → IsScalar n
scalar_of_lt n h = rw h tt

compare-lt : (n : ℕ) → n < 128 → compare n 55296 ≡ Ordering.lt
compare-lt n h = ground arith

unfoldable pub ascii_char : ℕ → Char
unfolding scalar_of_lt compare-lt dec_lt
ascii_char n =
    dite (dec_lt n 128) (λ h. char n (scalar_of_lt n (compare-lt n h))) (λ _. char 65533 tt)

unfoldable pub of_codes : List ℕ → String
unfolding ascii_char
of_codes [] = String.[]
of_codes (b ∷ bs) = String.◌∷◌ (ascii_char b) (of_codes bs)

-- s.split(): the words between runs of spaces.
push_char : Char → List String → List String
push_char c [] = String.◌∷◌ c String.[] ∷ []
push_char c (w ∷ ws) = String.◌∷◌ c w ∷ ws

drop_blank : List String → List String
drop_blank [] = []
drop_blank (w ∷ ws) = if is_empty w then ws else w ∷ ws

-- The words of a text, the first one empty where the text begins with a space.
words_from : String → List String
words_from String.[] = String.[] ∷ []
words_from (String.◌∷◌ c s) =
    let rest = words_from s in
    if is_space (code c) then String.[] ∷ drop_blank rest else push_char c rest

unfoldable pub split : String → List String
unfolding words_from push_char drop_blank is_space is_empty
split s = drop_blank (words_from s)

-- s.split(sep, 1) and s.partition(sep) at a separator of one character: what stands before it
-- and after it, where it occurs.
cut_front : Char → Option (String × String) → Option (String × String)
cut_front c none = none
cut_front c (some (a, b)) = some (String.◌∷◌ c a, b)

unfoldable pub cut_at : ℕ → String → Option (String × String)
unfolding cut_front
cut_at sep String.[] = none
cut_at sep (String.◌∷◌ c s) =
    let rest = cut_at sep s in if nat_eq (code c) sep then some (String.[], s) else cut_front c rest

-- \w of a regular expression, in ASCII.
unfoldable pub is_word : ℕ → Bool
is_word c =
    (leb b'a' c && leb c b'z')
    || (leb b'A' c && leb c b'Z')
    || (leb b'0' c && leb c b'9')
    || nat_eq c b'_'

abbrev pub is_digit : ℕ → Bool
is_digit c = leb b'0' c && leb c b'9'

-- s.split(sep)[-1], at a separator of one character.
after_last : ℕ → String → Option String
after_last sep String.[] = none
after_last sep (String.◌∷◌ c s) = elim (after_last sep s) [
  | some t ↦ some t
  | none ↦ if nat_eq (code c) sep then some s else none
]

unfoldable pub last_part : ℕ → String → String
unfolding after_last
last_part sep s = elim (after_last sep s) [ some t ↦ t | none ↦ s ]

-- s[:-1] where s ends with this character, else s.
unfoldable pub without_end : ℕ → String → String
without_end e String.[] = String.[]
without_end e (String.◌∷◌ c String.[]) =
    if nat_eq (code c) e then String.[] else String.◌∷◌ c String.[]
without_end e (String.◌∷◌ c (String.◌∷◌ d s)) = String.◌∷◌ c (without_end e (String.◌∷◌ d s))

zeros_before : ℕ → String → String
zeros_before zero s = s
zeros_before (suc n) s = String.◌∷◌ (char_at "0" 0) (zeros_before n s)

-- s.zfill(width)
unfoldable pub zfill : ℕ → String → String
unfolding zeros_before
zfill width String.[] = zeros_before width String.[]
zfill width (String.◌∷◌ c s) =
    let missing = width - count (String.◌∷◌ c s) in
    if nat_eq (code c) b'-' || nat_eq (code c) b'+'
    then String.◌∷◌ c (zeros_before missing s)
    else zeros_before missing (String.◌∷◌ c s)

-- s.isdigit()
unfoldable pub all_digits : String → Bool
all_digits String.[] = true
all_digits (String.◌∷◌ c s) = let rest = all_digits s in is_digit (code c) && rest

-- f"{n:03d}", for a number below 1000.
unfoldable pub three_digits : ℕ → String
three_digits n = String.◌∷◌ (char_at "0123456789" (n / 100 % 10)) (
    String.◌∷◌ (char_at "0123456789" (n / 10 % 10))
      (String.◌∷◌ (char_at "0123456789" (n % 10)) String.[]))
