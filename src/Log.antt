-- ===== src/Log.antt =====
-- `log/log.go`: the level and the handler of the log. The levels and the handlers are those of
-- go-ethereum: `Level` values are integers, and what they are called there is an argument.
pub mod Levels
use bridge_common.Prelude.{
  ℕ, ◌+◌, ◌-◌, ◌*◌, ◌^◌, Bool, true, false, not, ◌&&◌, [], ◌∷◌, Option, none, some, if◌then◌else◌,
  ltb, leb, ◌==◌,
}
use bridge_common.Prelude.Int.{ℤ, pos, negsuc, neg, is_positive, le_ℤ}
use bridge_common.Prelude.Text.{Text, codes, text_eq}

-- The number that a run of decimal digits stands for, as `strconv.ParseUint` reads it: a byte that is
-- no digit is an error, unless the digits before it have no room in 64 bits already.
pub data Digits : Type 0 where
  malformed : Digits
  too_large : Digits
  fits : ℕ → Digits

unfoldable pub read_digits : ℕ → Text → Digits
read_digits n [] = fits n
read_digits n (c ∷ cs) =
    let rest = read_digits (n * 10 + (c - b'0')) cs in
    if leb b'0' c && leb c b'9'
    then if ltb (n * 10 + (c - b'0')) (2 ^ 64) then rest else too_large
    else malformed

-- `strconv.Atoi` without its error: the value is 0 for a text that is no number, and the nearest
-- `int` for one that is out of range.
unfoldable pub clamped : Bool → Digits → ℤ
clamped negative malformed = pos 0
clamped true too_large = neg (2 ^ 63)
clamped false too_large = pos (2 ^ 63 - 1)
clamped true (fits n) = if ltb (2 ^ 63) n then neg (2 ^ 63) else neg n
clamped false (fits n) = if ltb n (2 ^ 63) then pos n else pos (2 ^ 63 - 1)

unfoldable pub number : Bool → Text → ℤ
unfolding read_digits clamped
number negative [] = pos 0
number negative (c ∷ cs) = clamped negative (read_digits 0 (c ∷ cs))

unfoldable pub atoi : Text → ℤ
unfolding number
atoi [] = pos 0
atoi (c ∷ cs) =
    if c == b'-'
    then number true cs
    else if c == b'+'
    then number false cs
    else number false (c ∷ cs)

pub data Output : Type 0 where
  stderr colorable_stderr : Output

pub data Format : Type 0 where
  json_format : Format
  -- With colours or not.
  terminal_format : Bool → Format

-- The variables of the package, and what the handler has been set to.
pub record Log : Type 0 where
  pub json : Bool
  pub verbosity : ℤ
  pub vmodule : Text
  pub output : Output
  pub format : Format
  pub level : ℤ
  -- What `Vmodule` was called with last.
  pub patterns : Option Text

-- The function `init` of the package, with `INFO` and the variable `LOG` of the environment.
unfoldable pub load : ℤ → Text → Log
unfolding atoi
load info env =
    let verbosity = if is_positive (atoi env) then atoi env else info in
    record {
      json = false;
      verbosity = verbosity;
      vmodule = [];
      output = stderr;
      format = terminal_format false;
      level = verbosity;
      patterns = none;
    }

-- `Init`, by whether the standard error is a terminal, and the variable `TERM`.
unfoldable pub init : Bool → Text → Log → Log
init terminal term l =
    let use_color = terminal && not (text_eq term (codes "dumb")) in
    record l {
      output = if l.json then stderr else if use_color then colorable_stderr else stderr;
      format = if l.json then json_format else terminal_format use_color;
      level = if is_positive l.verbosity then l.verbosity else l.level;
      patterns = if text_eq l.vmodule [] then l.patterns else some l.vmodule;
    }

-- `Json`: what is printed of a text that `json.Marshal` made.
unfoldable pub json : ℤ → Text → Log → Option Text
json lvl body l = if le_ℤ lvl l.verbosity then some body else none
