-- ===== src/Tools/Metric.antt =====
-- The metrics of `tools/metric.go`: building an entry and compiling it to the text that is sent.
-- What `%v` prints for a value is an argument.
pub mod Entries
use bridge_common.Prelude.{
  ℕ, ◌+◌, ◌≤◌, ◌<◌, ◌≡◌, ◌≢◌, ◌↔◌, refl, ap, sym, ◌∙◌, ◌⊎◌, inl, inr, Bool, true, false, not, ◌&&◌,
  List, [], ◌∷◌, ◌++◌, map, Option, none, some, length, All, if◌then◌else◌, ltb, ◌==◌, arith,
  length-map, length-append,
}
use bridge_common.Prelude.Text.{Text, codes, decimal, join}

pub record Metric : Type 0 where
  pub name : Text
  pub tags : List Text
  pub values : List Text

unfoldable pub new_metric : Text → Metric
new_metric name = record { name = name; tags = []; values = [] }

-- `fmt.Sprintf("%s=%v", k, v)`
abbrev pub pair : Text → Text → Text
pair k v = k ++ (b'=' ∷ v)

unfoldable pub tag : Text → Text → Metric → Metric
tag k v m = record m { tags = m.tags ++ (pair k v ∷ []) }

unfoldable pub value : Text → Text → Metric → Metric
value k v m = record m { values = m.values ++ (pair k v ∷ []) }

-- `strings.Split(v, "=")`
unfoldable pub split : Text → List Text
split [] = [] ∷ []
split (c ∷ cs) =
    let rest = split cs in
    if c == b'=' then [] ∷ rest else elim rest [ [] ↦ [] | t ∷ ts ↦ (c ∷ t) ∷ ts ]

-- `len(tokens) == 2`
unfoldable pub two : List Text → Option (Text × Text)
two [] = none
two (k ∷ []) = none
two (k ∷ v ∷ []) = some (k, v)
two (k ∷ v ∷ w ∷ more) = none

-- The loop of `Compile`: the keys and the values of the entries that split in two.
unfoldable pub keep : Text → List Text → List Text × List Text
unfolding split two
keep name [] = ([], [])
keep name (v ∷ vs) =
    let (keys, values) = keep name vs in
    elim (two (split v)) [
      | none ↦ (keys, values)
      | some (k, w) ↦ ((name ++ (b'.' ∷ k)) ∷ keys, w ∷ values)
    ]

abbrev line_end : Text
line_end = 13 ∷ 10 ∷ []

-- `Compile`, with the value of `NowMS` as an argument.
unfoldable pub compile : ℕ → Metric → Text
compile now m =
    let (keys, values) = keep m.name m.values in
    let head : Text = b'+' ∷ join keys (codes "|") in
    let tail : Text =
      line_end
      ++ (b'+' ∷ decimal now)
      ++ codes "000000"
      ++ line_end
      ++ (b'*' ∷ decimal (length keys))
      ++ line_end
      ++ (b'+' ∷ join values (line_end ++ codes "+"))
      ++ line_end in
    if ltb 0 (length keys)
    then if ltb 0 (length m.tags)
      then head ++ (b' ' ∷ join m.tags (codes " ")) ++ tail
      else head ++ tail
    else []
