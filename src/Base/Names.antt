-- ===== src/Base/Names.antt =====
-- `GetChainName` of `base/base.go`.
use bridge_common.Prelude.{ℕ, ◌≡◌, ◌≢◌, refl, Bool, true, not, ◌&&◌, List, [], ◌∷◌, arith}
use bridge_common.Prelude.Text.{Text, text_eq, text_eq_iff}
use bridge_common.Base.{Name, named, unknown, switch, chain_names, get_chain_name}
use bridge_common.Base.Networks.{Build, main, test, network}

no_name : Text → List (ℕ × Name) → Bool
no_name t [] = true
no_name t ((k, named u) ∷ cases) = not (text_eq u t) && no_name t cases
no_name t ((k, unknown z) ∷ cases) = no_name t cases

distinct_names : List (ℕ × Name) → Bool
unfolding no_name
distinct_names [] = true
distinct_names ((k, named t) ∷ cases) = no_name t cases && distinct_names cases
distinct_names ((k, unknown z) ∷ cases) = distinct_names cases

no_name-switch :
    (t : Text) (cases : List (ℕ × Name)) (x : ℕ)
    → no_name t cases ≡ true
    → switch cases (unknown x) x ≢ named t
unfolding no_name switch
no_name-switch t [] x h e = cc
no_name-switch t ((k, named u) ∷ cases) x h e =
    ground (arith, no_name-switch t cases x, text_eq_iff u t)
no_name-switch t ((k, unknown z) ∷ cases) x h e = ground (arith, no_name-switch t cases x)

switch_injective :
    (t : Text) (cases : List (ℕ × Name)) (x y : ℕ)
    → distinct_names cases ≡ true
    → switch cases (unknown x) x ≡ named t
    → switch cases (unknown y) y ≡ named t
    → x ≡ y
unfolding distinct_names switch
switch_injective t [] x y h e f = cc
switch_injective t ((k, named u) ∷ cases) x y h e f =
    ground (arith, switch_injective t cases x y, no_name-switch u cases x, no_name-switch u cases y)
switch_injective t ((k, unknown z) ∷ cases) x y h e f = ground (arith, switch_injective t cases x y)

chain_names-distinct_names : (b : Build) → distinct_names (chain_names (network b)) ≡ true
unfolding distinct_names text_eq
chain_names-distinct_names main = refl
chain_names-distinct_names test = refl

-- On each network no two chains have the same name.
pub get_chain_name_injective :
    (b : Build) (t : Text) (x y : ℕ)
    → get_chain_name (network b) x ≡ named t
    → get_chain_name (network b) y ≡ named t
    → x ≡ y
unfolding get_chain_name
get_chain_name_injective b t x y e f =
    switch_injective t (chain_names (network b)) x y (chain_names-distinct_names b) e f
