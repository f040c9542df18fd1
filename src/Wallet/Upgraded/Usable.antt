-- ===== src/Wallet/Upgraded/Usable.antt =====
-- However the two wallets of `Upgrade` of `wallet/wallet.go` are used, both stay usable.
use bridge_common.Prelude.{
  ℕ, ◌<◌, ◌≡◌, inl, inr, refl, sym, ap, ◌∙◌, subst, true, List, [], ◌∷◌, Option, some, length,
  get_elem?, get_elem?_of_lt, Bool, arith,
}
use mathlib.Core.List.{Perm}
use bridge_common.Prelude.Keyed.{Eq, find, put, find-put, keys}
use bridge_common.Wallet.Accounts.{
  get_account, Wallet, fails, succeeds, put_all, add_provider, update_accounts, init,
}
use bridge_common.Wallet.Accounts.RoundRobin.{select_next}
use bridge_common.Wallet.Accounts.Outcomes.{InitOutcome, locked, no_account, init-InitOutcome}
use bridge_common.Wallet.Accounts.Initialized.{init-IsReady}
use bridge_common.Wallet.Send.{Request, Outside, eth_send_with_account}
use bridge_common.Wallet.Send.Rounds.{is_some, send}
use bridge_common.Wallet.Send.Panics.{DoesNotPanic, eth_send_with_account-DoesNotPanic}
use bridge_common.Wallet.Send.Usable.{
  IsUsable, find-keys, find-put_nonces, find-put_nonces_kept, init-IsUsable, send-IsUsable,
}
use bridge_common.Wallet.Upgraded.{
  Side, original, upgraded, Twins, upgrade, side_of, share, write, Step, adds, inits, sends, Run,
  start, next,
}

module _ {A P : Type 0} ⦃e : Eq A⦄ where
  find-put_all_kept :
      (p : P) (accounts : List A) (m : List (A × P)) (a : A)
      → is_some (find a m) ≡ true
      → is_some (find a (put_all p accounts m)) ≡ true
  unfolding put_all
  find-put_all_kept p [] m a h = h
  find-put_all_kept p (b ∷ rest) m a h =
      find-put_all_kept p rest (put b p m) a (ground (arith, find-put b a p m, h))

  some_key : (m : List (A × P)) (a : A) → is_some (find a m) ≡ true → 0 < length (keys m)
  unfolding find
  some_key [] a h = absurd (ground (arith, h))
  some_key (x ∷ m) a h = omega arith

module _ {A P N : Type 0} ⦃e : Eq A⦄ where
  -- The keys of the maps stay.
  record Grows (w w' : Wallet A P N) : Type 0 where
    keeps_providers :
        (a : A) → is_some (find a w.providers) ≡ true → is_some (find a w'.providers) ≡ true
    keeps_nonces : (a : A) → is_some (find a w.nonces) ≡ true → is_some (find a w'.nonces) ≡ true

  share-IsUsable :
      (w w' v : Wallet A P N)
      → Grows w w'
      → v.providers ≡ w.providers
      → v.nonces ≡ w.nonces
      → IsUsable v
      → IsUsable (share w' v)
  unfolding share
  share-IsUsable w w' v g p n u = record {
    in_range = u.in_range;
    provided =
        λ k a at. g.keeps_providers a (ap (λ m. is_some (find a m)) (sym p) ∙ u.provided k a at);
    counted = λ k a at. g.keeps_nonces a (ap (λ m. is_some (find a m)) (sym n) ∙ u.counted k a at);
  }

  -- Both wallets are usable, and their maps are the same.
  pub record AreUsable (t : Twins A P N) : Type 0 where
    pub first : IsUsable t.original
    pub second : IsUsable t.upgraded
    pub same_providers : t.original.providers ≡ t.upgraded.providers
    pub same_nonces : t.original.nonces ≡ t.upgraded.nonces

  side-IsUsable : (s : Side) (t : Twins A P N) → AreUsable t → IsUsable (side_of s t)
  side-IsUsable original t u = u.first
  side-IsUsable upgraded t u = u.second

  write-AreUsable :
      (s : Side) (w : Wallet A P N) (t : Twins A P N)
      → AreUsable t
      → Grows (side_of s t) w
      → IsUsable w
      → AreUsable (write s w t)
  unfolding write share
  write-AreUsable original w t u g now = record {
    first = now;
    second =
        share-IsUsable t.original w t.upgraded g (sym u.same_providers) (sym u.same_nonces)
          u.second;
    same_providers = refl;
    same_nonces = refl;
  }
  write-AreUsable upgraded w t u g now = record {
    first = share-IsUsable t.upgraded w t.original g u.same_providers u.same_nonces u.first;
    second = now;
    same_providers = refl;
    same_nonces = refl;
  }

  add_provider-Grows :
      (p : P) (accounts : List A) (w : Wallet A P N) → Grows w (add_provider p accounts w)
  unfolding add_provider
  add_provider-Grows p accounts w = record {
    keeps_providers = find-put_all_kept p accounts w.providers;
    keeps_nonces = λ a h. h;
  }

  Grows-IsUsable :
      (w w' : Wallet A P N)
      → Grows w w'
      → w'.accounts ≡ w.accounts
      → w'.cursor ≡ w.cursor
      → IsUsable w
      → IsUsable w'
  Grows-IsUsable w w' g accounts cursor u = record {
    in_range = omega (arith, cursor, ap length accounts, u.in_range);
    provided = λ k a at.
        g.keeps_providers a (u.provided k a (sym (ap (λ l. get_elem? l k) accounts) ∙ at));
    counted =
        λ k a at. g.keeps_nonces a (u.counted k a (sym (ap (λ l. get_elem? l k) accounts) ∙ at));
  }

  update_accounts-Grows :
      (nonce_of : A → N) (w : Wallet A P N) → Grows w (update_accounts nonce_of w)
  unfolding update_accounts
  update_accounts-Grows nonce_of w = record {
    keeps_providers = λ a h. h;
    keeps_nonces = find-put_nonces_kept nonce_of (keys w.providers) w.nonces;
  }

  update_accounts-IsUsable :
      (nonce_of : A → N) (w : Wallet A P N) → IsUsable w → IsUsable (update_accounts nonce_of w)
  unfolding update_accounts
  update_accounts-IsUsable nonce_of w u =
      let (a, at) = get_elem?_of_lt w.accounts w.cursor u.in_range in
      record {
        in_range = some_key w.providers a (u.provided w.cursor a at);
        provided = find-keys w.providers;
        counted = find-put_nonces nonce_of (keys w.providers) w.nonces;
      }

  init_failed :
      (nonce_of : A → N) (unlocks : P → A → Bool) (sdk : Option (Option ℕ)) (w₀ w : Wallet A P N)
      → InitOutcome nonce_of unlocks sdk w₀ (fails w)
      → w ≡ update_accounts nonce_of w₀
  init_failed nonce_of unlocks sdk w₀ w (locked h e) = e
  init_failed nonce_of unlocks sdk w₀ w (no_account h e) = e

  module _ (nonce_of : A → N) (unlocks : P → A → Bool) (visited : List (A × P))
      (sdk : Option (Option ℕ)) (w₀ w : Wallet A P N) (p : Perm visited w₀.providers) where
    fails-Usable :
        init nonce_of unlocks visited sdk w₀ ≡ fails w → IsUsable w₀ → Grows w₀ w × IsUsable w
    fails-Usable h u =
        let same = init_failed nonce_of unlocks sdk w₀ w (
          subst (InitOutcome nonce_of unlocks sdk w₀) h
            (init-InitOutcome nonce_of unlocks visited sdk w₀ p)) in
        rw same (update_accounts-Grows nonce_of w₀, update_accounts-IsUsable nonce_of w₀ u)

    succeeds-Usable : init nonce_of unlocks visited sdk w₀ ≡ succeeds w → Grows w₀ w × IsUsable w
    succeeds-Usable h =
        let ready = init-IsReady nonce_of unlocks visited sdk w₀ w p h in
        (
          record {
            keeps_providers = λ a k. ap (λ m. is_some (find a m)) ready.providers ∙ k;
            keeps_nonces = λ a k.
                ap (λ m. is_some (find a m)) ready.nonces
                ∙ find-put_nonces_kept nonce_of (keys w₀.providers) w₀.nonces a k;
          },
          init-IsUsable nonce_of unlocks visited sdk w₀ w p h,
        )

module _ {A P N : Type 0} ⦃e : Eq A⦄ (D X H : Type 0) where
  send-Grows :
      (o : A → Outside D X H) (limits : List (ℕ × ℕ)) (r : Request D X) (w : Wallet A P N)
      → IsUsable w
      → Grows w (send o limits r w).1
  unfolding send
  send-Grows o limits r w u =
      let (a, at, chosen) = select_next w u.in_range in
      rw (chosen, send) (record { keeps_providers = λ a h. h; keeps_nonces = λ a h. h })

  Step-AreUsable : {t u : Twins A P N} → Step D X H t u → AreUsable t → AreUsable u
  unfolding add_provider
  Step-AreUsable {t} (adds s p accounts) h =
      let g = add_provider-Grows p accounts (side_of s t) in
      write-AreUsable s _ t h g (Grows-IsUsable (side_of s t) _ g refl refl (side-IsUsable s t h))
  Step-AreUsable {t} (inits s nonce_of unlocks visited sdk w p (inl failed)) h =
      let (g, u) =
        fails-Usable nonce_of unlocks visited sdk (side_of s t) w p failed (side-IsUsable s t h) in
      write-AreUsable s w t h g u
  Step-AreUsable {t} (inits s nonce_of unlocks visited sdk w p (inr done)) h =
      let (g, u) = succeeds-Usable nonce_of unlocks visited sdk (side_of s t) w p done in
      write-AreUsable s w t h g u
  Step-AreUsable {t} (sends s o limits r) h =
      let u = side-IsUsable s t h in
      write-AreUsable s _ t h (send-Grows o limits r (side_of s t) u)
        (send-IsUsable limits o r (side_of s t) u).1

  Run-AreUsable : {t u : Twins A P N} → Run D X H t u → AreUsable t → AreUsable u
  Run-AreUsable start h = h
  Run-AreUsable (next run step) h = Step-AreUsable step (Run-AreUsable run h)

  -- `SendWithAccount` of the upgraded wallet, from one of its accounts.
  upgraded-DoesNotPanic :
      (w : Wallet A P N) (k : ℕ) (a : A) (o : Outside D X H) (limits : List (ℕ × ℕ))
      (r : Request D X)
      → IsUsable w
      → get_elem? w.accounts k ≡ some a
      → DoesNotPanic (eth_send_with_account o limits w.chain_id (is_some (get_account a w).1) r)
  unfolding get_account
  upgraded-DoesNotPanic w k a o limits r u at =
      subst (λ known. DoesNotPanic (eth_send_with_account o limits w.chain_id known r))
        (sym (u.counted k a at)) (eth_send_with_account-DoesNotPanic o limits w.chain_id r)

  -- After an `Init` that succeeds, of a wallet with an SDK, and `Upgrade`, however calls of
  -- `AddProvider`, `Init` and `Send` of the two wallets follow each other, whatever others answer,
  -- and whether `Init` fails or not: every account of either wallet has a provider and a nonce
  -- provider, a call of `Send` of either wallet does not panic, and neither does one of the upgraded
  -- wallet's `SendWithAccount` with an account of its list.
  pub Run-upgrade :
      (nonce_of : A → N) (unlocks : P → A → Bool) (visited : List (A × P)) (answer : Option ℕ)
      (w₀ w : Wallet A P N) (t : Twins A P N)
      → Perm visited w₀.providers
      → init nonce_of unlocks visited (some answer) w₀ ≡ succeeds w
      → Run D X H (upgrade w) t
      → AreUsable t
        × ((s : Side) (o : A → Outside D X H) (limits : List (ℕ × ℕ)) (r : Request D X)
            → DoesNotPanic (send o limits r (side_of s t)).0)
        × ((k : ℕ) (a : A) (o : Outside D X H) (limits : List (ℕ × ℕ)) (r : Request D X)
            → get_elem? t.upgraded.accounts k ≡ some a
            → DoesNotPanic (
                eth_send_with_account o limits t.upgraded.chain_id
                  (is_some (get_account a t.upgraded).1)
                  r))
  unfolding upgrade
  Run-upgrade nonce_of unlocks visited answer w₀ w t p h run =
      let u = init-IsUsable nonce_of unlocks visited (some answer) w₀ w p h in
      let v =
        Run-AreUsable run
          (record { first = u; second = u; same_providers = refl; same_nonces = refl }) in
      (
        v,
        (λ s o limits r. (send-IsUsable limits o r (side_of s t) (side-IsUsable s t v)).0),
        λ k a o limits r at. upgraded-DoesNotPanic t.upgraded k a o limits r v.second at,
      )
