-- ===== src/Prelude/Json.antt =====
-- Values of a JSON document as Python holds them: what json.loads gives.
use Prim.Native.String.{String}
use mathlib.Core.Bool.{Bool, true, false, not}
use mathlib.Core.Option.{Option, none, some}
use text.Mathlib.Text.{◌==◌}
use pihub_remote_nrf.Prelude.Tests.{if◌then◌else◌}
use pihub_remote_nrf.Prelude.Text.{is_empty}
use pihub_remote_nrf.Prelude.Int.{ℤ, pos, is_nonzero, parse_int}

-- A float as far as the program looks at one: its integer part, and whether it is zero.
pub data Float : Type 0 where
  finite : ℤ → Bool → Float
  infinite : Float
  not_a_number : Float

mutual
  pub data Value : Type 0 where
    null : Value
    bool : Bool → Value
    int : ℤ → Value
    float : Float → Value
    str : String → Value
    obj : Fields → Value
    arr : Items → Value

  pub data Fields : Type 0 where
    end : Fields
    field : String → Value → Fields → Fields

  pub data Items : Type 0 where
    nil : Items
    cons : Value → Items → Items

-- d.get(k)
unfoldable pub get_field : String → Fields → Option Value
get_field k end = none
get_field k (field j v fs) = if j == k then some v else get_field k fs

-- d[k] = v
unfoldable pub put_field : String → Value → Fields → Fields
put_field k v end = field k v end
put_field k v (field j w fs) = if j == k then field j v fs else field j w (put_field k v fs)

-- Why int(v) raises.
pub data IntError : Type 0 where
  type_error value_error overflow_error : IntError

pub data IntResult : Type 0 where
  ok : ℤ → IntResult
  err : IntError → IntResult

abbrev or_value_error : Option ℤ → IntResult
or_value_error none = err value_error
or_value_error (some z) = ok z

-- int(v)
unfoldable pub to_int : Value → IntResult
to_int null = err type_error
to_int (bool b) = ok (if b then pos 1 else pos 0)
to_int (int z) = ok z
to_int (float (finite z _)) = ok z
to_int (float infinite) = err overflow_error
to_int (float not_a_number) = err value_error
to_int (str s) = or_value_error (parse_int s)
to_int (arr _) = err type_error
to_int (obj _) = err type_error

-- bool(v)
unfoldable pub truthy : Value → Bool
unfolding is_empty
truthy null = false
truthy (bool b) = b
truthy (int z) = is_nonzero z
truthy (float (finite _ zero?)) = not zero?
truthy (float _) = true
truthy (str s) = not (is_empty s)
truthy (arr nil) = false
truthy (arr (cons _ _)) = true
truthy (obj end) = false
truthy (obj (field _ _ _)) = true

-- isinstance(v, str), with the text.
abbrev pub text_of : Option Value → Option String
text_of (some (str s)) = some s
text_of _ = none

-- str(v), where Python's text of a value that is no text is `str_of`.
unfoldable pub text_value : (Value → String) → Value → String
text_value str_of (str s) = s
text_value str_of v = str_of v

-- str(fields.get(key) or default)
unfoldable pub text_or : (Value → String) → String → Option Value → String
unfolding text_value truthy
text_or str_of default none = default
text_or str_of default (some v) = if truthy v then text_value str_of v else default

-- A file that holds JSON: none, one that is not JSON or cannot be read, or a JSON value.
pub data JsonFile : Type 0 where
  missing unreadable : JsonFile
  holds : Value → JsonFile
