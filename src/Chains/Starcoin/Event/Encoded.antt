-- ===== src/Chains/Starcoin/Event/Encoded.antt =====
-- Reading back an encoded event. The laws state the format BCS as its documentation does: a sequence
-- of bytes stands with its length, a `u64` has an encoding of its own, and what is read is what the
-- offset moves past.
use bridge_common.Prelude.{
  ℕ, ◌+◌, ◌<◌, ◌≡◌, refl, ap, ◌∙◌, Bool, ◌++◌, ◌^◌, Option, some, length, ltb, arith, length-append,
}
use bridge_common.Util.Bytes.{Bytes}
use bridge_common.Chains.Starcoin.Event.{
  CrossChainEvent, Reading, read, leave, finish, Deserializer, empty_event, deserialize_fields,
  deserialize_cross_chain_event,
}

-- `At n rest s`: the deserializer `s` has read `n` bytes, and `rest` is left.
pub record IsBcs {S : Type 0} (d : Deserializer S) (bytes_of : Bytes → Bytes) (u64_of : ℕ → Bytes)
    (At : ℕ → Bytes → S → Type 0) : Type 0 where
  pub enters :
      (input : Bytes)
      → (s : S) × (d.increase_container_depth (d.new_deserializer input) ≡ some s) × At 0 input s
  pub leaves :
      (n : ℕ) (rest : Bytes) (s : S) → At n rest s → At n rest (d.decrease_container_depth s)
  pub reads_bytes :
      (n : ℕ) (v rest : Bytes) (s : S)
      → length v < 2 ^ 31
      → At n (bytes_of v ++ rest) s
      → (s' : S) × (d.deserialize_bytes s ≡ some (v, s')) × At (n + length (bytes_of v)) rest s'
  pub reads_u64 :
      (n v : ℕ) (rest : Bytes) (s : S)
      → v < 2 ^ 64
      → At n (u64_of v ++ rest) s
      → (s' : S) × (d.deserialize_u64 s ≡ some (v, s')) × At (n + length (u64_of v)) rest s'
  pub offset : (n : ℕ) (rest : Bytes) (s : S) → At n rest s → d.buffer_offset s ≡ n

-- An event that the format has room for.
pub record Fits (e : CrossChainEvent) : Type 0 where
  pub sender : length e.sender < 2 ^ 31
  pub tx_id : length e.tx_id < 2 ^ 31
  pub contract : length e.proxy_or_asset_contract < 2 ^ 31
  pub chain : e.to_chain_id < 2 ^ 64
  pub to_contract : length e.to_contract < 2 ^ 31
  pub raw_data : length e.raw_data < 2 ^ 31

-- The bytes of an event, with more behind them.
abbrev pub encode : (Bytes → Bytes) → (ℕ → Bytes) → CrossChainEvent → Bytes → Bytes
encode bytes_of u64_of e extra =
    bytes_of e.sender
    ++ (bytes_of e.tx_id
        ++ (bytes_of e.proxy_or_asset_contract
            ++ (u64_of e.to_chain_id
                ++ (bytes_of e.to_contract ++ (bytes_of e.raw_data ++ extra)))))

module _ {S : Type 0} (d : Deserializer S) (bytes_of : Bytes → Bytes) (u64_of : ℕ → Bytes)
    (At : ℕ → Bytes → S → Type 0) (laws : IsBcs d bytes_of u64_of At) where
  -- The reading so far is of `obj`, from `n` bytes, with `rest` left.
  record Reads (n : ℕ) (rest : Bytes) (obj : CrossChainEvent) (r : Reading d) : Type 0 where
    state : S
    going : r ≡ (obj, some state)
    left : At n rest state

  read-some :
      {A : Type 0} (get : S → Option (A × S)) (put : A → CrossChainEvent → CrossChainEvent)
      (obj : CrossChainEvent) (r : Reading d) (s s' : S) (v : A)
      → r ≡ (obj, some s)
      → get s ≡ some (v, s')
      → read d get put r ≡ (put v obj, some s')
  read-some get put obj r s s' v going got = ap (read d get put) going ∙ rw (got, read) refl

  read_bytes :
      (n : ℕ) (v rest : Bytes) (put : Bytes → CrossChainEvent → CrossChainEvent)
      (obj : CrossChainEvent) (r : Reading d)
      → length v < 2 ^ 31
      → Reads n (bytes_of v ++ rest) obj r
      → Reads (n + length (bytes_of v)) rest (put v obj) (read d d.deserialize_bytes put r)
  read_bytes n v rest put obj r room w =
      let (s', got, at) = laws.reads_bytes n v rest w.state room w.left in
      record {
        state = s';
        going = read-some d.deserialize_bytes put obj r w.state s' v w.going got;
        left = at;
      }

  read_u64 :
      (n v : ℕ) (rest : Bytes) (put : ℕ → CrossChainEvent → CrossChainEvent) (obj : CrossChainEvent)
      (r : Reading d)
      → v < 2 ^ 64
      → Reads n (u64_of v ++ rest) obj r
      → Reads (n + length (u64_of v)) rest (put v obj) (read d d.deserialize_u64 put r)
  read_u64 n v rest put obj r room w =
      let (s', got, at) = laws.reads_u64 n v rest w.state room w.left in
      record {
        state = s';
        going = read-some d.deserialize_u64 put obj r w.state s' v w.going got;
        left = at;
      }

  leave-Reads :
      (n : ℕ) (rest : Bytes) (obj : CrossChainEvent) (r : Reading d)
      → Reads n rest obj r
      → Reads n rest obj (leave d r)
  leave-Reads n rest obj r w = record {
    state = d.decrease_container_depth w.state;
    going = ap (leave d) w.going;
    left = laws.leaves n rest w.state w.left;
  }

  enter-Reads :
      (input : Bytes)
      → Reads 0 input empty_event
          (empty_event, d.increase_container_depth (d.new_deserializer input))
  enter-Reads input =
      let (s, up, at) = laws.enters input in
      record { state = s; going = ap (λ o. (empty_event, o)) up; left = at }

  -- How many bytes an encoded event takes.
  size : CrossChainEvent → ℕ
  size e =
      0
      + length (bytes_of e.sender)
      + length (bytes_of e.tx_id)
      + length (bytes_of e.proxy_or_asset_contract)
      + length (u64_of e.to_chain_id)
      + length (bytes_of e.to_contract)
      + length (bytes_of e.raw_data)

  length-encode :
      (e : CrossChainEvent) (extra : Bytes)
      → length (encode bytes_of u64_of e extra) ≡ size e + length extra
  unfolding size
  length-encode e extra =
      rw
        (
          length-append (bytes_of e.sender) _,
          length-append (bytes_of e.tx_id) _,
          length-append (bytes_of e.proxy_or_asset_contract) _,
          length-append (u64_of e.to_chain_id) _,
          length-append (bytes_of e.to_contract) _,
          length-append (bytes_of e.raw_data) _,
        )
        (omega arith)

  fields-Reads :
      (e : CrossChainEvent) (extra : Bytes)
      → Fits e
      → Reads
          (size e)
          extra
          e
          (deserialize_fields d (d.new_deserializer (encode bytes_of u64_of e extra)))
  unfolding deserialize_fields size
  fields-Reads e extra f = leave-Reads _ _ _ _ (
      read_bytes _ e.raw_data extra (λ v obj. record obj { raw_data = v }) _ _ f.raw_data
        (read_bytes _ e.to_contract _ (λ v obj. record obj { to_contract = v }) _ _ f.to_contract
          (read_u64 _ e.to_chain_id _ (λ v obj. record obj { to_chain_id = v }) _ _ f.chain
            (read_bytes _ e.proxy_or_asset_contract _
              (λ v obj. record obj { proxy_or_asset_contract = v }) _ _ f.contract
              (read_bytes _ e.tx_id _ (λ v obj. record obj { tx_id = v }) _ _ f.tx_id
                (read_bytes _ e.sender _ (λ v obj. record obj { sender = v }) _ _ f.sender
                  (enter-Reads (encode bytes_of u64_of e extra))))))))

  -- By the laws of the format an encoded event, with chain and lengths in range, decodes to itself,
  -- without an error if nothing stands behind it, and with one if something does.
  pub deserialize-encode :
      (e : CrossChainEvent) (extra : Bytes)
      → Fits e
      → deserialize_cross_chain_event d (some (encode bytes_of u64_of e extra))
        ≡ (e, ltb 0 (length extra))
  unfolding deserialize_cross_chain_event
  deserialize-encode e extra f =
      let w = fields-Reads e extra f in
      let input = encode bytes_of u64_of e extra in
      let rest : ltb (d.buffer_offset w.state) (length input) ≡ ltb 0 (length extra) =
        ground (arith, length-encode e extra, laws.offset (size e) extra w.state w.left) in
      ap (finish d input) w.going ∙ ap (λ (b : Bool). (e, b)) rest
