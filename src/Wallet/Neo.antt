-- ===== src/Wallet/Neo.antt =====
-- `wallet/neo.go`: an invocation by a wallet file. `A` is the type of accounts, `S` of scripts with
-- their attributes, `T` of transactions, and what the library neo-gogogo does is an argument.
use bridge_common.Prelude.{ℕ, List, [], ◌∷◌, Option, none, some}
use bridge_common.Prelude.Text.{Text}

pub record Gogogo (A S T F : Type 0) : Type 0 where
  pub script_hash : A → Option Text
  -- `MakeInvocationTransaction`, with the fees in fixed point.
  pub make_invocation : S → Text → ℕ → ℕ → Option T
  pub fixed8 : F → ℕ
  pub add_signature : T → A → Option T
  -- The error that the node answers, if any.
  pub send_raw : T → Option Text
  pub hash_of : T → Text

-- The transactions sent, the hash, which is empty beside an error, and whether there is an error;
-- `none` is the panic of a wallet without accounts.
abbrev pub Sent : Type 0 → Type 0
Sent T = List T × Text × Option Text

module _ {A S T F : Type 0} (g : Gogogo A S T F) (failed : Text) where
  -- From the answer of the node on.
  abbrev pub answered : T → Option Text → Sent T
  answered t (some e) = (t ∷ [], [], some e)
  answered t none = (t ∷ [], g.hash_of t, none)

  abbrev pub signed : Option T → Sent T
  signed none = ([], [], some failed)
  signed (some t) = answered t (g.send_raw t)

  abbrev pub made : A → Option T → Sent T
  made account none = ([], [], some failed)
  made account (some t) = signed (g.add_signature t account)

  unfoldable pub send_invocation_with_account : A → S → F → F → Sent T
  send_invocation_with_account account script sys_fee net_fee = elim (g.script_hash account) [
    | none ↦ ([], [], some failed)
    | some address ↦
        made account (g.make_invocation script address (g.fixed8 sys_fee) (g.fixed8 net_fee))
  ]

  -- `Account`, the first account of the file.
  abbrev pub first_account : List A → Option A
  first_account [] = none
  first_account (a ∷ accounts) = some a

  unfoldable pub send_invocation : List A → S → F → F → Option (Sent T)
  send_invocation accounts script sys_fee net_fee = elim (first_account accounts) [
    | none ↦ none
    | some account ↦ some (send_invocation_with_account account script sys_fee net_fee)
  ]

-- `SysFee` and `NetFee` of `Config`.
pub record Fees (F : Type 0) : Type 0 where
  pub sys_fee : F
  pub net_fee : F

pub record NeoWallet (A F : Type 0) : Type 0 where
  pub accounts : List A
  pub config : Fees F

-- `NewNeoWallet`, nil or not. `load` is `NewWalletFromFile`; `decrypt` is `DecryptAll`, which gives the
-- accounts decrypted.
unfoldable pub new_neo_wallet :
    {A F : Type 0}
    → (Text → Option (List A))
    → (Text → List A → Option (List A))
    → Text
    → Text
    → Fees F
    → Option (NeoWallet A F)
new_neo_wallet load decrypt path password fees = elim (load path) [
  | none ↦ none
  | some locked ↦ elim (decrypt password locked) [
    | none ↦ none
    | some accounts ↦ some (record { accounts = accounts; config = fees })
  ]
]

module _ {A S T F : Type 0} (g : Gogogo A S T F) (failed : Text) where
  unfoldable pub invoke : NeoWallet A F → S → Option (Sent T)
  unfolding send_invocation
  invoke w script = send_invocation g failed w.accounts script w.config.sys_fee w.config.net_fee

  unfoldable pub invoke_with_account : NeoWallet A F → A → S → Sent T
  unfolding send_invocation_with_account
  invoke_with_account w account script =
      send_invocation_with_account g failed account script w.config.sys_fee w.config.net_fee
