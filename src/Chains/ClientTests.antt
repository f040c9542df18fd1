-- ===== src/Chains/ClientTests.antt =====
-- The clients of the chain packages at concrete replies of their nodes.
use bridge_common.Prelude.{
  ℕ, zero, suc, ◌+◌, ◌<◌, ◌≡◌, refl, ap, ◌∙◌, ◌⊎◌, inr, true, false, not, ◌==◌, [], ◌∷◌, ◌++◌,
  Option, none, some, length, take, drop, arith,
}
use bridge_common.Prelude.Text.{Text, codes}
use bridge_common.Util.Bytes.{Bytes}
use bridge_common.Chains.Eth
use bridge_common.Chains.Eth.{TxReply, unknown, found, Confirmed}
use bridge_common.Chains.Eth.Confirms.{IsConfirmed, IsUnconfirmed, none_yet}
use bridge_common.Chains.Eth.Confirms.Returns.{Slices, confirm-returns}
use bridge_common.Chains.Bridge
use bridge_common.Chains.Bridge.Requests.{
  check_tx, get_fee, fetch_tx, outcome, body_of, requests-outcome,
}
use bridge_common.Tools.Ding.{Web}
use bridge_common.Chains.Storage.{Native, Store, holds, put_le, space}
use bridge_common.Chains.Poly
use bridge_common.Chains.Poly.Confirms.{IsSettled, IsUnsettled, confirm-IsSettled}
use bridge_common.Chains.Poly.Heights.{get_side_chain_height-put_le}
use bridge_common.Chains.Starcoin.Event.{
  CrossChainEvent, Deserializer, deserialize_cross_chain_event,
}
use bridge_common.Chains.Starcoin.Event.Encoded.{IsBcs, encode, deserialize-encode}

-- Not known in the first round, mined in block 16 in later ones, below the latest block, 20.
abbrev rounds : ℕ → TxReply × Option ℕ
rounds zero = (unknown, some 19)
rounds (suc i) = (found (some (codes "0x10")), some 20)

rounds-Slices : (i : ℕ) → i < 2 → Slices (λ t. 0) (rounds i).0
rounds-Slices zero h = tt
rounds-Slices (suc i) h = tt

confirm-returns_example :
    (c : Confirmed (λ t. 0)) × (Eth.confirm (λ t. 0) rounds 3 2 ≡ some c)
    × (((i : ℕ) × (i < 2) × IsConfirmed (λ t. 0) 3 (rounds i) c)
        ⊎ IsUnconfirmed (λ t. 0) rounds 2 3 (none_yet (λ t. 0)) c)
confirm-returns_example = confirm-returns (λ t. 0) rounds 3 2 rounds-Slices

confirm-IsSettled_example :
    let (h, err) = Poly.confirm (λ i. (some 7, some (8 + i))) 3 5 in
    ((i : ℕ) × (i < 5) × IsSettled 3 (some 7, some (8 + i)) h × (err ≡ false))
    ⊎ (h ≡ 0) × IsUnsettled (λ i. (some 7, some (8 + i))) 5 3 false err
confirm-IsSettled_example = confirm-IsSettled (λ i. (some 7, some (8 + i))) 3 5

abbrev native : Native
native = record {
  header_sync = codes "sync";
  cross_chain_manager = codes "ccm";
  done_tx = [];
  main_chain = [];
  header_index = [];
  consensus_peer_block_height = [];
  consensus_peer = [];
  cross_chain_msg = [];
  current_msg_height = [];
  current_header_height = codes "currentHeight";
  epoch_switch = [];
  uint64_bytes = put_le 8;
  uint32_bytes = put_le 4;
  bytes_uint64 = λ bs. 0;
  bytes_uint32 = λ bs. 0;
  neo_height = λ bs. none;
}

abbrev store : Store
store contract key = holds (some (put_le 4 70_000))

room : 70_000 < space 4
unfolding space
room = omega arith

get_side_chain_height-put_le_example :
    Poly.get_side_chain_height native store 4 2 ≡ some (70_000, false)
get_side_chain_height-put_le_example =
    get_side_chain_height-put_le native store 4 2 4 70_000 (omega arith) (inr refl) room refl

-- A deserializer that keeps the offset and what is left, for a format where a length and a number
-- take one cell.
abbrev get_bytes : ℕ × Bytes → Option (Bytes × (ℕ × Bytes))
get_bytes (n, []) = none
get_bytes (n, k ∷ r) = some (take k r, (n + suc k, drop k r))

abbrev get_u64 : ℕ × Bytes → Option (ℕ × (ℕ × Bytes))
get_u64 (n, []) = none
get_u64 (n, k ∷ r) = some (k, (n + 1, r))

abbrev cells : Deserializer (ℕ × Bytes)
cells = record {
  new_deserializer = λ input. (0, input);
  buffer_offset = λ s. s.0;
  increase_container_depth = λ s. some s;
  decrease_container_depth = λ s. s;
  deserialize_bytes = get_bytes;
  deserialize_u64 = get_u64;
}

abbrev cells_of : Bytes → Bytes
cells_of v = length v ∷ v

abbrev cell_of : ℕ → Bytes
cell_of v = v ∷ []

abbrev At : ℕ → Bytes → ℕ × Bytes → Type 0
At n rest s = s ≡ (n, rest)

take-length : (v rest : Bytes) → take (length v) (v ++ rest) ≡ v
take-length [] rest = refl
take-length (x ∷ v) rest = ap (λ t. x ∷ t) (take-length v rest)

drop-length : (v rest : Bytes) → drop (length v) (v ++ rest) ≡ rest
drop-length [] rest = refl
drop-length (x ∷ v) rest = drop-length v rest

cells-IsBcs : IsBcs cells cells_of cell_of At
cells-IsBcs = record {
  enters = λ input. ((0, input), refl, refl);
  leaves = λ n rest s at. at;
  reads_bytes = λ n v rest s room at. (
    (n + suc (length v), rest),
    ap get_bytes at
        ∙ ap (λ (p : Bytes × Bytes). some (p.0, (n + suc (length v), p.1)))
            {x = (take (length v) (v ++ rest), drop (length v) (v ++ rest))}
            (λ i. (take-length v rest i, drop-length v rest i)),
    refl,
  );
  reads_u64 = λ n v rest s room at. ((n + 1, rest), ap get_u64 at, refl);
  offset = λ n rest s at. ap (λ (p : ℕ × Bytes). p.0) at;
}

abbrev event : CrossChainEvent
event = record {
  sender = 1 ∷ 2 ∷ [];
  tx_id = 3 ∷ [];
  proxy_or_asset_contract = [];
  to_chain_id = 79;
  to_contract = 4 ∷ [];
  raw_data = 5 ∷ 6 ∷ [];
}

deserialize-encode_example :
    deserialize_cross_chain_event cells (some (encode cells_of cell_of event (7 ∷ [])))
    ≡ (event, true)
deserialize-encode_example =
    deserialize-encode cells cells_of cell_of At cells-IsBcs event (7 ∷ []) (record {
      sender = omega arith;
      tx_id = omega arith;
      contract = omega arith;
      chain = omega arith;
      to_contract = omega arith;
      raw_data = omega arith;
    })

-- A server that answers with one byte, which decodes to nothing useful; a URL is not empty and does
-- not begin with a colon.
abbrev web : Web Text ℕ
web = record {
  valid_url = λ url. elim url [ [] ↦ false | c ∷ cs ↦ not (c == 58) ];
  marshal = λ req. some req;
  exchange = λ url sent. some (0 ∷ []);
  unmarshal = λ body r. (r, false);
}

abbrev bridge : Bridge.Client
bridge = record { address = codes "b"; explorer = codes "e" }

requests-outcome_example :
    (check_tx web 9 bridge (codes "q")
      ≡ outcome web 9 (body_of web 9 (codes "b/transactionofhash") (codes "q")))
    × (get_fee web 9 bridge (codes "q")
        ≡ outcome web 9 (body_of web 9 (codes "b/getfee") (codes "q")))
    × (fetch_tx web 9 bridge (codes "h") ≡ outcome web 9 (some (0 ∷ [])))
requests-outcome_example = requests-outcome web 9 bridge (codes "q") (codes "h") refl refl refl
