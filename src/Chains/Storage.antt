-- ===== src/Chains/Storage.antt =====
-- What the chain packages use of the storage of Poly's and Ontology's native contracts, in
-- `chains/poly/poly.go` and `chains/ont/ont.go`, and of `encoding/binary`.
use bridge_common.Prelude.{
  ℕ, zero, suc, ◌+◌, ◌*◌, ◌/◌, ◌%◌, ◌<◌, ◌≡◌, refl, ap, [], ◌∷◌, ◌++◌, Option, none, some, length,
  arith,
}
use bridge_common.Prelude.Text.{Text}
use bridge_common.Util.Bytes.{Bytes}

-- The answer of `GetStorage`: an error, or the bytes under the key, which may be a nil slice.
pub data Stored : Type 0 where
  denied : Stored
  holds : Option Bytes → Stored

-- By the contract's address and the key.
abbrev pub Store : Type 0
Store = Text → Bytes → Stored

-- The constants and the serialisers of the modules `poly` and `ontology`.
pub record Native : Type 0 where
  pub header_sync : Text
  pub cross_chain_manager : Text
  pub done_tx : Bytes
  pub main_chain : Bytes
  pub header_index : Bytes
  pub consensus_peer_block_height : Bytes
  pub consensus_peer : Bytes
  pub cross_chain_msg : Bytes
  pub current_msg_height : Bytes
  pub current_header_height : Bytes
  pub epoch_switch : Bytes
  pub uint64_bytes : ℕ → Bytes
  pub uint32_bytes : ℕ → Bytes
  pub bytes_uint64 : Option Bytes → ℕ
  pub bytes_uint32 : Bytes → ℕ
  -- `NeoConsensus.Deserialization`, and the field `Height`.
  pub neo_height : Option Bytes → Option ℕ

-- `binary.LittleEndian`, on as many bytes as the first argument says.
unfoldable pub put_le : ℕ → ℕ → Bytes
put_le zero n = []
put_le (suc w) n = (n % 256) ∷ put_le w (n / 256)

-- The bytes read, or the panic of an index out of range.
unfoldable pub get_le : ℕ → Bytes → Option ℕ
get_le zero bs = some 0
get_le (suc w) [] = none
get_le (suc w) (b ∷ bs) = elim (get_le w bs) [ none ↦ none | some n ↦ some (b + 256 * n) ]

-- How many numbers fit.
unfoldable pub space : ℕ → ℕ
space zero = 1
space (suc w) = 256 * space w

-- A number that fits is read back.
pub get_le-put_le : (w n : ℕ) (rest : Bytes) → n < space w → get_le w (put_le w n ++ rest) ≡ some n
unfolding get_le put_le space
get_le-put_le zero n rest h = ap some (omega (arith, h))
get_le-put_le (suc w) n rest h =
    let back : get_le w (put_le w (n / 256) ++ rest) ≡ some (n / 256) =
      get_le-put_le w (n / 256) rest (omega (arith, h)) in
    rw back (ap some (omega arith))

pub length-put_le : (w n : ℕ) → length (put_le w n) ≡ w
unfolding put_le
length-put_le zero n = refl
length-put_le (suc w) n = ap suc (length-put_le w (n / 256))
