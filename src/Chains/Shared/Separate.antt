-- ===== src/Chains/Shared/Separate.antt =====
-- The packages under `chains` in the singleton store that they share: each finds its own SDKs there.
use bridge_common.Prelude.{
  ◌≡◌, ◌≢◌, refl, sym, ap, ◌∙◌, subst, Bool, true, false, List, [], ◌∷◌, Option, none, some,
  if◌then◌else◌, arith,
}
use mathlib.Core.Option
use mathlib.Core.Option.{some-injective}
use bridge_common.Prelude.Text.{Text, codes, lookup, text_eq, text_eq_iff}
use bridge_common.Prelude.Text.Decimal.{HasNoColon, colon_inj}
use bridge_common.Util.Singleton.{single, store_key, lookup-single_iff}
use bridge_common.Chains.Package.{Options, PackageSdk, Instances, create, request_key, with_options}
use bridge_common.Chains.Shared.{
  Package, eth, ont, neo, harmony, starcoin, switcheo, bridge, poly, ClientOf, config_of, Any,
  assert, Call, Returned, unwrap, ask, serve_all, Stores, put_store, serve_each,
}

-- Packages by the letters that tell their types apart.
named : Text → Package
named t =
    if text_eq t (codes "*eth.SDK")
    then eth
    else if text_eq t (codes "*ont.SDK")
    then ont
    else if text_eq t (codes "*neo.SDK")
    then neo
    else if text_eq t (codes "*harmony.SDK")
    then harmony
    else if text_eq t (codes "*starcoin.SDK")
    then starcoin
    else if text_eq t (codes "*switcheo.SDK")
    then switcheo
    else if text_eq t (codes "*bridge.SDK")
    then bridge
    else poly

assert_self :
    (R : Type 0) (p : Package) (s : Option (PackageSdk (ClientOf R p)))
    → assert {R = R} p (p, s) ≡ some s
unfolding assert
assert_self R eth s = refl
assert_self R ont s = refl
assert_self R neo s = refl
assert_self R harmony s = refl
assert_self R starcoin s = refl
assert_self R switcheo s = refl
assert_self R bridge s = refl
assert_self R poly s = refl

dec_package : Discrete Package
dec_package = hlevel

module _ {R : Type 0} (dial : Package → Text → R)
    (dial_rpc dial_raw connect : Text → Option R) where
  named-type_name : (p : Package) → named (config_of dial dial_rpc dial_raw connect p).type_name ≡ p
  unfolding named text_eq
  named-type_name eth = refl
  named-type_name ont = refl
  named-type_name neo = refl
  named-type_name harmony = refl
  named-type_name starcoin = refl
  named-type_name switcheo = refl
  named-type_name bridge = refl
  named-type_name poly = refl

  put_store_self :
      (p : Package) (m : Instances (ClientOf R p)) (all : Stores R)
      → put_store dial dial_rpc dial_raw connect p m all p ≡ m
  unfolding put_store
  put_store_self eth m all = refl
  put_store_self ont m all = refl
  put_store_self neo m all = refl
  put_store_self harmony m all = refl
  put_store_self starcoin m all = refl
  put_store_self switcheo m all = refl
  put_store_self bridge m all = refl
  put_store_self poly m all = refl

  put_store_ne :
      (p q : Package) (m : Instances (ClientOf R p)) (all : Stores R)
      → p ≢ q
      → put_store dial dial_rpc dial_raw connect p m all q ≡ all q
  unfolding put_store
  put_store_ne eth eth m all h = absurd (h refl)
  put_store_ne ont ont m all h = absurd (h refl)
  put_store_ne neo neo m all h = absurd (h refl)
  put_store_ne harmony harmony m all h = absurd (h refl)
  put_store_ne starcoin starcoin m all h = absurd (h refl)
  put_store_ne switcheo switcheo m all h = absurd (h refl)
  put_store_ne bridge bridge m all h = absurd (h refl)
  put_store_ne poly poly m all h = absurd (h refl)
  put_store_ne p q m all h = refl

  type_name-HasNoColon :
      (p : Package) → HasNoColon (config_of dial dial_rpc dial_raw connect p).type_name
  type_name-HasNoColon eth = ground arith
  type_name-HasNoColon p = ground arith

  request_key-caller :
      (p q : Package) (o o' : Options)
      → request_key (config_of dial dial_rpc dial_raw connect p) o
        ≡ request_key (config_of dial dial_rpc dial_raw connect q) o'
      → p ≡ q
  unfolding request_key store_key
  request_key-caller p q o o' e =
      sym (named-type_name p)
      ∙ ap named (colon_inj _ _ _ _ (type_name-HasNoColon p) (type_name-HasNoColon q) e).0
      ∙ named-type_name q

  -- Under the keys of a package the shared store holds what the package's own store holds.
  abbrev AgreesAt : List (Text × Any R) → (p : Package) → Instances (ClientOf R p) → Type 0
  AgreesAt state p m =
      (o : Options)
      → let key = request_key (config_of dial dial_rpc dial_raw connect p) o in
        lookup key state ≡ Option.map (λ s. (p, s)) (lookup key m)

  abbrev Agrees : List (Text × Any R) → Stores R → Type 0
  Agrees state all = (p : Package) → AgreesAt state p (all p)

  module _ (p : Package) (key : Text) (made : Option (PackageSdk (ClientOf R p)) × Bool)
      (state : List (Text × Any R)) (m : Instances (ClientOf R p))
      (h : lookup key state ≡ Option.map (λ s. (p, s)) (lookup key m)) where
    -- What `Single` returns from the two stores.
    single-instance : (single key ((p, made.0), made.1) state).0 ≡ (p, (single key made m).0)
    unfolding single
    single-instance = ground (arith, h)

    single-error : (single key ((p, made.0), made.1) state).1 ≡ (single key made m).1
    unfolding single
    single-error = ground (arith, h)

  module _ (p : Package) (o : Options) (made : Option (PackageSdk (ClientOf R p)) × Bool)
      (state : List (Text × Any R)) (all : Stores R) (h : Agrees state all) where
    abbrev request : Text
    request = request_key (config_of dial dial_rpc dial_raw connect p) o

    abbrev later : List (Text × Any R)
    later = (single request ((p, made.0), made.1) state).2

    abbrev own : Instances (ClientOf R p)
    own = (single request made (all p)).2

    own-AgreesAt : AgreesAt later p own
    own-AgreesAt o' =
        let key = request_key (config_of dial dial_rpc dial_raw connect p) o' in
        ground (
          arith,
          h p o',
          single-instance p request made state (all p) (h p o),
          lookup-single_iff key request ((p, made.0), made.1) state,
          lookup-single_iff key request made (all p),
        )

    other-AgreesAt : (q : Package) → p ≢ q → AgreesAt later q (all q)
    other-AgreesAt q other o' =
        let key = request_key (config_of dial dial_rpc dial_raw connect q) o' in
        let ne : request ≢ key = λ e. other (request_key-caller p q o o' e) in
        ground (
          arith,
          ne,
          h q o',
          text_eq_iff request key,
          lookup-single_iff key request ((p, made.0), made.1) state,
        )

    single-Agrees : Agrees later (put_store dial dial_rpc dial_raw connect p own all)
    single-Agrees q = elim (dec_package p q) [
      | yes same ↦
          subst (λ r. AgreesAt later r (put_store dial dial_rpc dial_raw connect p own all r)) same
            (subst (AgreesAt later p) (sym (put_store_self p own all)) own-AgreesAt)
      | no other ↦
          subst (AgreesAt later q) (sym (put_store_ne p q own all other)) (other-AgreesAt q other)
    ]

  unwrap_self :
      (p : Package) (s : Option (PackageSdk (ClientOf R p))) (bad : Bool)
      → unwrap dial dial_rpc dial_raw connect p (p, s) bad
        ≡ some (p, (if bad then none else s), bad)
  unfolding unwrap
  unwrap_self p s true = refl
  unwrap_self p s false = rw (assert_self R p s) refl

  -- The three parts of what `WithOptions` returns.
  with_options_parts :
      (p : Package) (c : Call) (m : Instances (ClientOf R p))
      → let config = config_of dial dial_rpc dial_raw connect p in
        let (s, bad, m') =
          single (request_key config c.options) (create config c.answer c.options) m in
        with_options config c.answer c.options m ≡ ((if bad then none else s), bad, m')
  unfolding with_options
  with_options_parts p c m = ground arith

  -- A call over the shared store, by the same call over the store of its package.
  module _ (c : Call) (state : List (Text × Any R)) (all : Stores R) (h : Agrees state all) where
    abbrev returned :
        Option (PackageSdk (ClientOf R c.caller)) × Bool × Instances (ClientOf R c.caller)
    returned =
        with_options (config_of dial dial_rpc dial_raw connect c.caller) c.answer c.options
          (all c.caller)

    ask-returned :
        (ask dial dial_rpc dial_raw connect c state).0 ≡ some (c.caller, returned.0, returned.1)
    unfolding ask
    ask-returned =
        let p = c.caller in
        let config = config_of dial dial_rpc dial_raw connect p in
        let key = request_key config c.options in
        let made = create config c.answer c.options in
        let (s, bad, m) = single key made (all p) in
        ap
          (λ ins.
            unwrap dial dial_rpc dial_raw connect p ins (single key ((p, made.0), made.1) state).1)
          (single-instance p key made state (all p) (h p c.options))
        ∙ ap (unwrap dial dial_rpc dial_raw connect p (p, s))
            (single-error p key made state (all p) (h p c.options))
        ∙ unwrap_self p s bad
        ∙ ap (λ r. some (p, r.0, r.1)) (sym (with_options_parts p c (all p)))

    ask-Agrees :
        Agrees
          (ask dial dial_rpc dial_raw connect c state).1
          (put_store dial dial_rpc dial_raw connect c.caller returned.2 all)
    unfolding ask
    ask-Agrees =
        let p = c.caller in
        let made = create (config_of dial dial_rpc dial_raw connect p) c.answer c.options in
        rw (with_options_parts p c (all p)) (single-Agrees p c.options made state all h)

  serve_all-next :
      (c : Call) (cs : List Call) (state : List (Text × Any R)) (out : Returned R)
      (outs : List (Returned R))
      → (ask dial dial_rpc dial_raw connect c state).0 ≡ some out
      → serve_all dial dial_rpc dial_raw connect cs (ask dial dial_rpc dial_raw connect c state).1
        ≡ some outs
      → serve_all dial dial_rpc dial_raw connect (c ∷ cs) state ≡ some (out ∷ outs)
  unfolding serve_all
  serve_all-next c cs state out outs e f = rw (e, f, serve_all) refl

  serve_all-Agrees :
      (cs : List Call) (state : List (Text × Any R)) (all : Stores R)
      → Agrees state all
      → serve_all dial dial_rpc dial_raw connect cs state
        ≡ some (serve_each dial dial_rpc dial_raw connect cs all)
  unfolding serve_all serve_each
  serve_all-Agrees [] state all h = refl
  serve_all-Agrees (c ∷ cs) state all h =
      serve_all-next c cs state _ _ (ask-returned c state all h)
        (serve_all-Agrees cs _ _ (ask-Agrees c state all h))

  -- One store serves all packages: whatever calls of `WithOptions` the packages make, no type assertion
  -- panics, and each call returns what it would if its package had a store of its own.
  pub serve_all-serve_each :
      (cs : List Call)
      → serve_all dial dial_rpc dial_raw connect cs []
        ≡ some (serve_each dial dial_rpc dial_raw connect cs λ p. [])
  unfolding lookup
  serve_all-serve_each cs = serve_all-Agrees cs [] (λ p. []) (λ p o. refl)
