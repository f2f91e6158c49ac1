-- ===== src/Prelude/Int.antt =====
-- Python's int over the native numbers, and int(text) for a text in base ten.
use Prim.Native.Nat.{ℕ, zero, suc, ◌+◌, ◌-◌, ◌*◌, ◌%◌, ◌<◌}
use Prim.Native.Char.{code}
use Prim.Native.String.{String}
use mathlib.Core.Bool.{Bool, true, false, ◌&&◌}
use mathlib.Core.Option
use mathlib.Core.Option.{Option, none, some}
use native.Mathlib.Omega.{arith}
use pihub_remote_nrf.Prelude.Tests.{leb, nat_eq, if◌then◌else◌}
use pihub_remote_nrf.Prelude.Text.{strip, is_digit}

-- `negsuc n` is -(n + 1).
pub data ℤ : Type 0 where
  pos : ℕ → ℤ
  negsuc : ℕ → ℤ

-- -n
abbrev pub neg : ℕ → ℤ
neg zero = pos 0
neg (suc n) = negsuc n

-- lo <= z <= hi, for bounds that are not negative.
unfoldable pub within : ℕ → ℕ → ℤ → Bool
within lo hi (pos n) = leb lo n && leb n hi
within lo hi (negsuc n) = false

abbrev pub is_one : ℤ → Bool
is_one (pos n) = nat_eq n 1
is_one (negsuc n) = false

-- z != 0
abbrev pub is_nonzero : ℤ → Bool
is_nonzero (pos zero) = false
is_nonzero (pos (suc n)) = true
is_nonzero (negsuc n) = true

-- z & 0xFFFF, in two's complement.
unfoldable pub low_word : ℤ → ℕ
low_word (pos n) = n % 65536
low_word (negsuc n) = 65535 - n % 65536

-- Digits, with single underscores between them; the flag says that a digit came just before.
digits : Bool → ℕ → String → Option ℕ
digits seen acc String.[] = if seen then some acc else none
digits seen acc (String.◌∷◌ c s) =
    let d = is_digit (code c) in
    let rest = digits d (if d then acc * 10 + (code c - b'0') else acc) s in
    if d then rest else if seen && nat_eq (code c) b'_' then rest else none

signed : String → Option ℤ
signed String.[] = none
signed (String.◌∷◌ c s) =
    if nat_eq (code c) b'-'
    then Option.map neg (digits false 0 s)
    else if nat_eq (code c) b'+'
    then Option.map pos (digits false 0 s)
    else Option.map pos (digits false 0 (String.◌∷◌ c s))

-- int(s); `none` is its ValueError.
unfoldable pub parse_int : String → Option ℤ
unfolding digits signed strip
parse_int s = signed (strip s)

pub low_word-lt : (z : ℤ) → low_word z < 65536
unfolding low_word
low_word-lt (pos n) = omega arith
low_word-lt (negsuc n) = omega arith
