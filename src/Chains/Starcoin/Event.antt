-- ===== src/Chains/Starcoin/Event.antt =====
-- `chains/starcoin/msg.go`: the event that a Starcoin transaction leaves for Poly, read by the
-- deserializer of the module `bcs`, whose state has the type `S`.
pub mod Encoded
use bridge_common.Prelude.{
  ℕ, Bool, true, false, List, [], ◌∷◌, Option, none, some, length, if◌then◌else◌, ltb,
}
use bridge_common.Util.Bytes.{Bytes}

pub record CrossChainEvent : Type 0 where
  pub sender : Bytes
  pub tx_id : Bytes
  pub proxy_or_asset_contract : Bytes
  pub to_chain_id : ℕ
  pub to_contract : Bytes
  pub raw_data : Bytes

-- The calls of the deserializer; `none` is an error.
pub record Deserializer (S : Type 0) : Type 0 where
  pub new_deserializer : Bytes → S
  pub buffer_offset : S → ℕ
  pub increase_container_depth : S → Option S
  pub decrease_container_depth : S → S
  pub deserialize_bytes : S → Option (Bytes × S)
  pub deserialize_u64 : S → Option (ℕ × S)

abbrev pub empty_event : CrossChainEvent
empty_event = record {
  sender = [];
  tx_id = [];
  proxy_or_asset_contract = [];
  to_chain_id = 0;
  to_contract = [];
  raw_data = [];
}

module _ {S : Type 0} (d : Deserializer S) where
  -- The event so far, and the deserializer, or an error after which the event is returned as it is.
  abbrev pub Reading : Type 0
  Reading = CrossChainEvent × Option S

  -- One `if val, err := …` of the function.
  abbrev pub read :
      {A : Type 0}
      → (S → Option (A × S))
      → (A → CrossChainEvent → CrossChainEvent)
      → Reading
      → Reading
  read get put (obj, none) = (obj, none)
  read get put (obj, some s) = elim (get s) [
    | none ↦ (obj, none)
    | some (v, s') ↦ (put v obj, some s')
  ]

  abbrev pub leave : Reading → Reading
  leave (obj, none) = (obj, none)
  leave (obj, some s) = (obj, some (d.decrease_container_depth s))

  -- `deserializeCrossChainEvent`
  unfoldable pub deserialize_fields : S → Reading
  deserialize_fields s₀ =
      let start : Reading = (empty_event, d.increase_container_depth s₀) in
      let r₁ = read d.deserialize_bytes (λ v obj. record obj { sender = v }) start in
      let r₂ = read d.deserialize_bytes (λ v obj. record obj { tx_id = v }) r₁ in
      let r₃ = read d.deserialize_bytes (λ v obj. record obj { proxy_or_asset_contract = v }) r₂ in
      let r₄ = read d.deserialize_u64 (λ v obj. record obj { to_chain_id = v }) r₃ in
      let r₅ = read d.deserialize_bytes (λ v obj. record obj { to_contract = v }) r₄ in
      let r₆ = read d.deserialize_bytes (λ v obj. record obj { raw_data = v }) r₅ in leave r₆

  -- The check for bytes that were not read.
  abbrev pub finish : Bytes → Reading → CrossChainEvent × Bool
  finish input (obj, none) = (obj, true)
  finish input (obj, some s) = (obj, ltb (d.buffer_offset s) (length input))

  -- The event, and whether an error is returned; the input may be a nil slice.
  unfoldable pub deserialize_cross_chain_event : Option Bytes → CrossChainEvent × Bool
  deserialize_cross_chain_event none = (empty_event, true)
  deserialize_cross_chain_event (some input) =
      finish input (deserialize_fields (d.new_deserializer input))
