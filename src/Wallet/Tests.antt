-- ===== src/Wallet/Tests.antt =====
-- The wallet at concrete limits, accounts and requests.
use bridge_common.Prelude.{
  All, ℕ, ◌≡◌, refl, inl, true, false, List, [], ◌∷◌, none, some, arith, get_elem?,
}
use bridge_common.Prelude.Int.{ℤ, pos}
use bridge_common.Prelude.Keyed.{nat_eq, find, put}
use bridge_common.Wallet.Accounts.{
  get_account, add_provider, Wallet, succeeds, init, update_accounts, unlock_all, activate,
  verify_chain_id, put_nonces,
}
use bridge_common.Wallet.Accounts.RoundRobin.{select_times}
use bridge_common.Wallet.Accounts.OneRound.{select_times-Perm}
use mathlib.Core.List.{Perm, Permᴰ}
use mathlib.Core.List.Perm
use bridge_common.Wallet.Accounts.Outcomes.{InitOutcome, init-InitOutcome}
use bridge_common.Wallet.Accounts.Orders.{IsAlike, init-IsAlike}
use bridge_common.Wallet.Send.{Request, fine, Outside, send_with_account, eth_send_with_account}
use bridge_common.Wallet.Send.Rounds.{is_some, send}
use bridge_common.Wallet.Send.Kinds.{upgraded-kinds}
use bridge_common.Wallet.Send.Served.{IsServed, SubmitsOne}
use bridge_common.Wallet.Send.Usable.{IsUsable, init-IsUsable}
use bridge_common.Wallet.Gas.{get_chain_gas_limit, hard_gas_limit, soft_gas_limit}
use bridge_common.Wallet.Send.Panics.{DoesNotPanic}
use bridge_common.Wallet.Upgraded.{
  Side, original, upgraded, Twins, upgrade, write, side_of, adds, sends, Run, start, next,
}
use bridge_common.Wallet.Upgraded.Usable.{AreUsable, Run-upgrade}
use bridge_common.Wallet.Send.Limits.{Allows, send_with_account-Allows}
use bridge_common.Wallet.Send.Nonces.{IsSettled, send_with_account-IsSettled}

-- A wallet of three accounts with one provider.
abbrev three : Wallet ℕ ℕ ℕ
three = record {
  chain_id = 0;
  providers = (11, 1) ∷ (12, 1) ∷ (13, 1) ∷ [];
  provider = none;
  account = none;
  nonces = [];
  accounts = 11 ∷ 12 ∷ 13 ∷ [];
  cursor = 2;
}

abbrev ready : Wallet ℕ ℕ ℕ
ready = record {
  chain_id = 4;
  providers = (11, 1) ∷ (12, 1) ∷ (13, 1) ∷ [];
  provider = some 1;
  account = some 11;
  nonces = (11, 11) ∷ (12, 12) ∷ (13, 13) ∷ [];
  accounts = 11 ∷ 12 ∷ 13 ∷ [];
  cursor = 0;
}

select_times-Perm_example :
    (rest : List ℕ) × (select_times 3 three ≡ some rest) × Perm rest (11 ∷ 12 ∷ 13 ∷ [])
select_times-Perm_example = select_times-Perm three (omega arith)

-- The loop of `Init` comes by the first two providers the other way round.
abbrev swapped : List (ℕ × ℕ)
swapped = (12, 1) ∷ (11, 1) ∷ (13, 1) ∷ []

swapped-Perm : Perm swapped three.providers
swapped-Perm = ∣ Permᴰ.swap refl refl ∣₁

init-ready : init (λ a. a) (λ p a. true) swapped (some (some 4)) three ≡ succeeds ready
unfolding init update_accounts unlock_all activate verify_chain_id put_nonces put find
init-ready = refl

init-InitOutcome_example :
    InitOutcome
      (λ a. a)
      (λ p a. true)
      (some (some 4))
      three
      (init (λ a. a) (λ p a. true) swapped (some (some 4)) three)
init-InitOutcome_example =
    init-InitOutcome (λ a. a) (λ p a. true) swapped (some (some 4)) three swapped-Perm

init-IsAlike_example :
    IsAlike
      (init (λ a. a) (λ p a. true) swapped (some (some 4)) three)
      (init (λ a. a) (λ p a. true) swapped (some (some 4)) (record three { providers = swapped }))
init-IsAlike_example =
    init-IsAlike (λ a. a) (λ p a. true) swapped swapped (some (some 4)) three swapped swapped-Perm
      (Perm.refl swapped) (Perm.symm swapped-Perm)

-- A node that suggests 20, whose estimate is 21000, and a signer that gives the nonce as the hash.
abbrev outside : Outside ℕ ℕ ℕ
outside = record {
  suggest_gas_price = fine (pos 20);
  suggest_gas_tip = fine (pos 2);
  acquire = fine 7;
  estimate_gas = λ d v p c. fine 21_000;
  sign = λ tx. fine tx.nonce;
  submit = λ h. none;
  mul_float = λ p x. p;
  scale = λ n. n;
  has_been_executed = λ t. false;
}

abbrev request : Request ℕ ℕ
request = record {
  payload = 0;
  amount = pos 1;
  gas_limit = 0;
  gas_price = none;
  gas_price_x = none;
}

send_with_account-IsSettled_example :
    IsSettled outside.acquire (send_with_account outside false [] 2 true request)
send_with_account-IsSettled_example = send_with_account-IsSettled outside [] 2 true request

send_with_account-Allows_example :
    All (Allows outside [] 2 request) (send_with_account outside false [] 2 true request).0
send_with_account-Allows_example = send_with_account-Allows outside [] 2 request false true

ready-IsUsable : IsUsable ready
ready-IsUsable =
    init-IsUsable (λ a. a) (λ p a. true) swapped (some (some 4)) three ready swapped-Perm init-ready

outside-IsServed : (a : ℕ) → IsServed outside [] 4 request 7
unfolding get_chain_gas_limit hard_gas_limit soft_gas_limit find
outside-IsServed a = record {
  price = (pos 20, refl);
  tip = (pos 2, refl);
  acquires = refl;
  estimates = λ value price cap. (21_000, refl, omega arith);
  given = inl refl;
  signs = λ tx. (tx.nonce, refl);
}

upgraded-kinds_example :
    ((a : ℕ) × (get_elem? ready.accounts ready.cursor ≡ some a)
      × SubmitsOne outside [] 4 request
          (λ tx. tx.fee_cap ≡ none)
          7
          (send (λ a. outside) [] request ready).0)
    × SubmitsOne outside [] 4 request
        (λ tx. (cap : ℤ) × (tx.fee_cap ≡ some cap))
        7
        (eth_send_with_account outside [] 4 (is_some (get_account 12 ready).1) request)
upgraded-kinds_example =
    upgraded-kinds (λ a. outside) [] request ready (λ a. 7) 1 12 ready-IsUsable outside-IsServed
      refl

-- An account is added to the wallet, and the upgraded wallet sends.
abbrev later : Twins ℕ ℕ ℕ
later =
    let t = write original (add_provider 1 (14 ∷ []) ready) (upgrade ready) in
    write upgraded (send (λ a. outside) [] request t.upgraded).1 t

later-Run : Run ℕ ℕ ℕ (upgrade ready) later
unfolding upgrade
later-Run = next (next start (adds original 1 (14 ∷ []))) (sends upgraded (λ a. outside) [] request)

Run-upgrade_example :
    AreUsable later
    × ((s : Side) (o : ℕ → Outside ℕ ℕ ℕ) (limits : List (ℕ × ℕ)) (r : Request ℕ ℕ)
        → DoesNotPanic (send o limits r (side_of s later)).0)
    × ((k a : ℕ) (o : Outside ℕ ℕ ℕ) (limits : List (ℕ × ℕ)) (r : Request ℕ ℕ)
        → get_elem? later.upgraded.accounts k ≡ some a
        → DoesNotPanic (
            eth_send_with_account o limits later.upgraded.chain_id
              (is_some (get_account a later.upgraded).1)
              r))
Run-upgrade_example =
    Run-upgrade ℕ ℕ ℕ (λ a. a) (λ p a. true) swapped (some 4) three ready later swapped-Perm
      init-ready later-Run
