-- ===== src/Base/Json.antt =====
-- The values of a JSONB column, and Python's conversions of them. What `str` prints of a value that
-- is no text, what `int` reads from one that is no number, and
-- what a loop of `int` reads from one that is no list, are the fields of `Conversions`.
use text.Mathlib.Text.{◌==◌ as str_eq}
use mathlib.Core.Bool.{Bool, true, false}
use mathlib.Core.Option.{Option, none, some}
use mathlib.Core.List.{List, [], ◌∷◌}
use Prim.Native.Nat.{ℕ}
use Prim.Native.String.{String}
use uptime_platform.Base.Tests.{if◌then◌else◌, ◌==◌}
use uptime_platform.Base.Result.{Result, ok, err}

pub data Json : Type 0 where
  null : Json
  string : String → Json
  number : ℕ → Json
  flag : Bool → Json
  numbers : List ℕ → Json

pub record Conversions : Type 0 where
  pub print : Json → String
  pub parse : Json → Option ℕ
  pub each : Json → Option (List ℕ)  -- tuple(int(x) for x in v), of what is no list of numbers

-- An exception of a conversion: KeyError, TypeError or ValueError.
pub data ConversionError : Type 0 where
  conversion_error : ConversionError

abbrev pub Object : Type 0
Object = List (String × Json)

-- `d.get(k)`
unfoldable pub find : Object → String → Option Json
find [] k = none
find ((j, v) ∷ d) k = if str_eq j k then some v else find d k

-- `d[k]`
abbrev pub item : Option Json → Result ConversionError Json
item none = err conversion_error
item (some v) = ok v

-- `d.get(k, default)`
abbrev pub default : Option Json → Json → Json
default none v = v
default (some w) v = w

-- `bool(v)`
abbrev pub to_bool : Json → Bool
to_bool null = false
to_bool (string s) = if str_eq s "" then false else true
to_bool (number n) = if n == 0 then false else true
to_bool (flag b) = b
to_bool (numbers []) = false
to_bool (numbers (n ∷ ns)) = true

module _ (lib : Conversions) where
  -- `str(v)`
  abbrev pub to_str : Json → String
  to_str (string s) = s
  to_str v = lib.print v

  abbrev read : Option ℕ → Result ConversionError ℕ
  read none = err conversion_error
  read (some n) = ok n

  -- `int(v)`
  abbrev pub to_int : Json → Result ConversionError ℕ
  to_int (number n) = ok n
  to_int v = read (lib.parse v)

  abbrev read_each : Option (List ℕ) → Result ConversionError (List ℕ)
  read_each none = err conversion_error
  read_each (some ns) = ok ns

  -- `tuple(int(x) for x in v)`
  abbrev pub to_ints : Json → Result ConversionError (List ℕ)
  to_ints (numbers ns) = ok ns
  to_ints v = read_each (lib.each v)
