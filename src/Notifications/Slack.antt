-- ===== src/Notifications/Slack.antt =====
-- `validate_slack_webhook_url` of src/uptime_platform/notifications/slack.py. Its regular expression
-- is one of two prefixes, and three segments of letters, digits, `_` and `-` with `/` between them.
use Prim.Native.Char.{code}
use uptime_platform.Base.{
  ℕ, ◌-◌, String, Bool, true, false, not, ◌&&◌, ◌||◌, Option, none, some, List, [], ◌∷◌, ltb, leb,
  ◌==◌, if◌then◌else◌, length,
}
use uptime_platform.Base.Result.{Result, ok, err, ValueError, value_error}

-- The code points of a text; `length` of them is `len`.
abbrev pub codes : String → List ℕ
codes String.[] = []
codes (String.◌∷◌ c s) = code c ∷ codes s

-- What follows a prefix.
abbrev strip : (prefix text : List ℕ) → Option (List ℕ)
strip [] text = some text
strip (c ∷ cs) [] = none
strip (c ∷ cs) (d ∷ ds) = let rest = strip cs ds in if c == d then rest else none

abbrev within : (low high n : ℕ) → Bool
within low high n = leb low n && leb n high

-- [A-Za-z0-9_-]
abbrev in_segment : ℕ → Bool
in_segment n = within 65 90 n || within 97 122 n || within 48 57 n || n == 95 || n == 45

-- The segments that are still to begin, and whether the one before has a character.
abbrev Reading : Type 0
Reading = Option (ℕ × Bool)

-- One character more; 47 is `/`.
abbrev read : ℕ → Reading → Reading
read n none = none
read n (some (left, started)) =
    if in_segment n
    then some (left, true)
    else if n == 47 && started && ltb 0 left
    then some (left - 1, false)
    else none

abbrev read_all : List ℕ → Reading → Reading
read_all [] reading = reading
read_all (n ∷ ns) reading = read_all ns (read n reading)

abbrev is_complete : Reading → Bool
is_complete none = false
is_complete (some (left, started)) = left == 0 && started

abbrev three_segments : Option (List ℕ) → Bool
three_segments none = false
three_segments (some text) = is_complete (read_all text (some (2, false)))

-- `re.fullmatch`
unfoldable pub fullmatch : String → Bool
fullmatch value =
    three_segments (strip (codes "https://hooks.slack.com/services/") (codes value))
    || three_segments (strip (codes "https://hooks.slack-gov.com/services/") (codes value))

unfoldable pub validate_slack_webhook_url : String → Result ValueError String
unfolding fullmatch
validate_slack_webhook_url value =
    if ltb 2048 (length (codes value)) || not (fullmatch value) then err value_error else ok value
