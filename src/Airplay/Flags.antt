-- ===== src/Airplay/Flags.antt =====
-- pihub/apple_tv_airplay.py: the flags of an mDNS record, and the bit for a connected session.
use Prim.Native.Char.{code}
use Prim.Native.String.{String}
use mathlib.Core.Option
use pihub_remote_nrf.Prelude.{
  ℕ, ◌+◌, ◌-◌, ◌*◌, ◌/◌, ◌%◌, Bool, true, false, not, Option, none, some, ◌&&◌, ◌||◌, leb, ltb,
  nat_eq, if◌then◌else◌,
}
use pihub_remote_nrf.Prelude.Text.{strip, is_empty, is_digit}
use pihub_remote_nrf.Prelude.Int.{ℤ, pos, negsuc, neg}

-- The value of a digit, 36 where it is none.
digit_value : ℕ → ℕ
digit_value c =
    if is_digit c
    then c - b'0'
    else if leb b'a' c && leb c b'z'
    then c - b'a' + 10
    else if leb b'A' c && leb c b'Z'
    then c - b'A' + 10
    else 36

-- Digits of a base, with single underscores between them; the flag says that a digit or a prefix came
-- just before, and an underscore may follow.
base_digits : ℕ → Bool → Bool → ℕ → String → Option ℕ
unfolding digit_value
base_digits base seen any acc String.[] = if seen && any then some acc else none
base_digits base seen any acc (String.◌∷◌ c s) =
    let d = digit_value (code c) in
    let ok = ltb d base in
    let rest = base_digits base ok (any || ok) (if ok then acc * base + d else acc) s in
    if ok then rest else if seen && nat_eq (code c) b'_' then rest else none

is_letter : ℕ → ℕ → ℕ → Bool
is_letter small large c = nat_eq c small || nat_eq c large

-- A decimal numeral of base 0 has no leading zero, unless it is zero.
decimal : String → Option ℕ
unfolding base_digits
decimal String.[] = none
decimal (String.◌∷◌ c s) = elim (base_digits 10 false false 0 (String.◌∷◌ c s)) [
  | none ↦ none
  | some n ↦ if nat_eq (code c) b'0' && not (nat_eq n 0) then none else some n
]

-- A numeral without its sign, by its prefix.
unsigned : String → Option ℕ
unfolding base_digits is_letter decimal
unsigned (String.◌∷◌ c (String.◌∷◌ d s)) =
    if nat_eq (code c) b'0' && is_letter b'x' b'X' (code d)
    then base_digits 16 true false 0 s
    else if nat_eq (code c) b'0' && is_letter b'o' b'O' (code d)
    then base_digits 8 true false 0 s
    else if nat_eq (code c) b'0' && is_letter b'b' b'B' (code d)
    then base_digits 2 true false 0 s
    else decimal (String.◌∷◌ c (String.◌∷◌ d s))
unsigned s = decimal s

-- int(text, 0); `none` is its ValueError.
unfoldable pub int_base_0 : String → Option ℤ
unfolding unsigned decimal strip
int_base_0 String.[] = none
int_base_0 (String.◌∷◌ c s) =
    if nat_eq (code c) b'-'
    then Option.map neg (unsigned s)
    else if nat_eq (code c) b'+'
    then Option.map pos (unsigned s)
    else Option.map pos (unsigned (String.◌∷◌ c s))

-- _extract_flags; the property's text, where it is there.
unfoldable pub extract_flags : Option String → Option ℤ
unfolding int_base_0 strip is_empty
extract_flags none = none
extract_flags (some raw) = let text = strip raw in if is_empty text then none else int_base_0 text

-- bool(flags & 0x20000)
unfoldable pub has_session : ℤ → Bool
has_session (pos n) = nat_eq (n / 131072 % 2) 1
has_session (negsuc n) = nat_eq (n / 131072 % 2) 0
