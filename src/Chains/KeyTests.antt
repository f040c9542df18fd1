-- ===== src/Chains/KeyTests.antt =====
-- Storage keys, keys of SDKs, and texts in hexadecimal, at concrete chains and bytes.
use bridge_common.Prelude.{
  ℕ, ◌%◌, ◌^◌, ◌<◌, ◌≡◌, refl, sym, ap, ◌∙◌, false, List, [], ◌∷◌, ◌++◌, none, some, arith,
}
use mathlib.Core.Option.{some-injective}
use bridge_common.Prelude.Text.{Text, codes, lookup, insert}
use bridge_common.Util.Singleton.{single, single_all}
use bridge_common.Chains.Storage.{Native, put_le, get_le, space, get_le-put_le, length-put_le}
use bridge_common.Chains.Poly.{get_side_chain_msg}
use bridge_common.Chains.Poly.Keys.{FixedWidth, msg, read-inj}
use bridge_common.Chains.Sdk.{
  Answer, height, init, update_selection, apply_selection, ping_all, ping, available, new_chain_sdk,
}
use bridge_common.Chains.Package.{
  Options, PackageSdk, PackageConfig, Instances, new_sdk, create, request_key, with_options,
}
use bridge_common.Chains.Shared.{eth, bridge, Call, serve_all, serve_each}
use bridge_common.Chains.Shared.Separate.{serve_all-serve_each}
use bridge_common.Chains.Package.Sharing.{with_options_shared, with_options_other}

-- Serialisers that write the low byte first.
abbrev native : Native
native = record {
  header_sync = codes "h";
  cross_chain_manager = codes "m";
  done_tx = 1 ∷ [];
  main_chain = 2 ∷ [];
  header_index = 3 ∷ [];
  consensus_peer_block_height = 4 ∷ [];
  consensus_peer = 5 ∷ [];
  cross_chain_msg = 6 ∷ [];
  current_msg_height = 7 ∷ [];
  current_header_height = 8 ∷ [];
  epoch_switch = 9 ∷ [];
  uint64_bytes = put_le 8;
  uint32_bytes = put_le 4;
  bytes_uint64 = λ bs. 0;
  bytes_uint32 = λ bs. 0;
  neo_height = λ bs. none;
}

put_le_injective : (w m n : ℕ) → m < space w → n < space w → put_le w m ≡ put_le w n → m ≡ n
put_le_injective w m n h k e =
    some-injective _ _
      (sym (get_le-put_le w m [] h) ∙ ap (λ bs. get_le w (bs ++ [])) e ∙ get_le-put_le w n [] k)

native-FixedWidth : FixedWidth native
unfolding space
native-FixedWidth = record {
  wide = length-put_le 8;
  narrow = length-put_le 4;
  wide_injective = λ m n h k e. put_le_injective 8 m n (omega (arith, h)) (omega (arith, k)) e;
  narrow_injective = λ m n h k e. put_le_injective 4 m n (omega (arith, h)) (omega (arith, k)) e;
}

-- Heights that are 2 ^ 32 apart share a message.
read-inj_example : ◌≡◌ {A = ℕ} 2 2 × (7 % 2 ^ 32 ≡ 4_294_967_303 % 2 ^ 32)
unfolding get_side_chain_msg
read-inj_example =
    read-inj native native-FixedWidth msg 2 2 7 4_294_967_303 (omega arith) (omega arith)
      (omega arith) (omega arith) refl

-- A package whose clients are their URLs.
abbrev plain : PackageConfig Text
plain = record {
  new_client = λ url. url;
  address = λ url. url;
  type_name = codes "SDK";
  key_prefix = [];
  keeps_failed = false;
}

abbrev of_chain : ℕ → ℕ → Options
of_chain chain_id gap = record {
  chain_id = chain_id;
  nodes = codes "a" ∷ [];
  interval = 1;
  max_gap = gap;
}

abbrev up : ℕ → Answer
up n = height 7

abbrev one_sdk : PackageSdk Text
one_sdk = record {
  chain_sdk = some (init up (new_chain_sdk 2 (codes "a" ∷ []) 1 5)).0;
  nodes = codes "a" ∷ [];
  options = none;
}

abbrev one_kept : Instances Text
one_kept = (request_key plain (of_chain 2 5), some one_sdk) ∷ []

with_options-one_sdk : with_options plain up (of_chain 2 5) [] ≡ (some one_sdk, false, one_kept)
unfolding with_options request_key create new_sdk init update_selection apply_selection ping_all
    ping available new_chain_sdk single lookup insert
with_options-one_sdk = refl

with_options_shared_example :
    with_options plain up (of_chain 2 90) (single_all [] one_kept)
    ≡ (some one_sdk, false, single_all [] one_kept)
with_options_shared_example =
    with_options_shared plain up up (of_chain 2 5) (of_chain 2 90) [] one_kept (some one_sdk) []
      refl refl with_options-one_sdk

with_options_other_example :
    let (s, bad, state') = with_options plain up (of_chain 2 5) [] in
    ((with_options plain up (of_chain 6 5) state').0 ≡ (with_options plain up (of_chain 6 5) []).0)
    × ((with_options plain up (of_chain 6 5) state').1
        ≡ (with_options plain up (of_chain 6 5) []).1)
with_options_other_example =
    with_options_other plain up up (of_chain 2 5) (of_chain 6 5) [] (omega arith)

-- The bridge and a chain like Ethereum with the same options.
abbrev two_calls : List Call
two_calls =
    record { caller = eth; options = of_chain 2 5; answer = up }
    ∷ record { caller = bridge; options = of_chain 2 5; answer = up }
    ∷ []

serve_all-serve_each_example :
    serve_all (λ p url. url) some some some two_calls []
    ≡ some (serve_each (λ p url. url) some some some two_calls λ p. [])
serve_all-serve_each_example = serve_all-serve_each (λ p url. url) some some some two_calls
