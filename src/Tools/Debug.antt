-- ===== src/Tools/Debug.antt =====
-- `Setup` of `tools/debug/pprof.go`: where the profiler listens.
use bridge_common.Prelude.{List, [], ◌∷◌, Option, none, some, if◌then◌else◌}
use bridge_common.Prelude.Text.{Text, codes, text_eq}

-- An argument of type `interface{}`: a string, or something else.
pub data Arg : Type 0 where
  text : Text → Arg
  other : Arg

-- The address `addr` that the call is given; `none` is a panic.
unfoldable pub given : List Arg → Option Text
given [] = some []
given (text t ∷ args) = some t
given (other ∷ args) = none

-- The address that is listened on, with the variable `PPROF_LISTEN` of the environment.
unfoldable pub address : Text → Text → Text
address addr env =
    let addr = if text_eq addr [] then env else addr in
    if text_eq addr [] then codes "localhost:8888" else addr

unfoldable pub setup : List Arg → Text → Option Text
unfolding given address
setup args env = elim (given args) [ none ↦ none | some addr ↦ some (address addr env) ]
