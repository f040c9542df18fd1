-- ===== src/Chains/Sdk/Race/Returning.antt =====
-- What holds when a call of `Select` returns, however calls and `updateSelection` interleave.
use mathlib.Core.Option.{some-injective}
use bridge_common.Prelude.{
  Option, none, ==_iff, ◌%◌, ℕ, ◌<◌, ◌≡◌, refl, sym, subst, ap, ◌∙◌, ◌⊎◌, inl, inr, Bool, true,
  List, some, get_elem?, arith, Bool-cases, ◌==◌,
}
use bridge_common.Chains.Sdk.Race.{
  Pc, outside, entered, loaded, bumped, tests, returned, Move, enters, loads, stores, looks, skips,
  returns, update,
}
use bridge_common.Chains.Sdk.Race.Exclusion.{Step-flags}
use bridge_common.Chains.Sdk.Race.Locked.{
  Shared, IsIdle, Step, moves, leaves, waits, stores_flags, Run, here, next, start,
}

-- Indices in range.
abbrev IsInRange : ℕ → Pc → Type 0
IsInRange len outside = Unit
IsInRange len (entered a) = a < len
IsInRange len (loaded a v) = a < len
IsInRange len (bumped a) = a < len
IsInRange len (tests a c) = (a < len) × (c < len)
IsInRange len (returned a c) = (a < len) × (c < len)

-- A call that holds the read lock.
abbrev pub IsBusy : Pc → Type 0
IsBusy p = IsIdle p → ⊥

-- The index where the search of a call began.
abbrev began : Pc → Option ℕ
began outside = none
began (entered a) = some a
began (loaded a v) = some a
began (bumped a) = some a
began (tests a c) = some a
began (returned a c) = some a

Move-entered :
    {flags : List Bool} {len x y : ℕ} {p q : Pc} (a : ℕ)
    → Move flags len x p y q
    → p ≡ outside
    → q ≡ entered a
    → a ≡ x % len
Move-entered a (enters e) idle now = cc
Move-entered a loads idle now = absurd cc
Move-entered a (stores room e) idle now = absurd cc
Move-entered a (looks e) idle now = absurd cc
Move-entered a (skips ne f) idle now = absurd cc
Move-entered a (returns e) idle now = absurd cc

module _ (len : ℕ) (pos : 0 < len) where
  Move-IsInRange :
      {flags : List Bool} {x y : ℕ} {p q : Pc}
      → Move flags len x p y q
      → IsInRange len p
      → IsInRange len q
  Move-IsInRange (enters e) s = omega (arith, e)
  Move-IsInRange loads s = s
  Move-IsInRange (stores room e) s = s
  Move-IsInRange (looks e) s = (s, omega (arith, e))
  Move-IsInRange (skips ne f) s = s.0
  Move-IsInRange (returns e) s = s

  update-IsInRange :
      (pc : ℕ → Pc) (i : ℕ) (p : Pc)
      → ((j : ℕ) → IsInRange len (pc j))
      → IsInRange len p
      → (j : ℕ) → IsInRange len (update pc i p j)
  update-IsInRange pc i p all new j = elim (Bool-cases (i == j)) [
    | inl same ↦ rw same new
    | inr other ↦ rw other (all j)
  ]

  Step-IsInRange :
      {s t : Shared}
      → Step len s t
      → ((j : ℕ) → IsInRange len (s.pc j))
      → (j : ℕ) → IsInRange len (t.pc j)
  Step-IsInRange {s} (moves i at mv free) all =
      update-IsInRange s.pc i _ all (Move-IsInRange mv (subst (IsInRange len) at (all i)))
  Step-IsInRange {s} (leaves i at) all = update-IsInRange s.pc i Pc.outside all tt
  Step-IsInRange waits all = all
  Step-IsInRange (stores_flags flags wait idle size) all = all

  Run-IsInRange :
      {s t : Shared}
      → Run len s t
      → ((j : ℕ) → IsInRange len (s.pc j))
      → (j : ℕ) → IsInRange len (t.pc j)
  Run-IsInRange here all = all
  Run-IsInRange (next r step) all = Step-IsInRange step (Run-IsInRange r all)

  -- A statement after which a call has returned leaves the index in the cursor.
  Move-returned :
      {flags : List Bool} {x y : ℕ} {p q : Pc} (a c : ℕ)
      → Move flags len x p y q
      → q ≡ returned a c
      → (y ≡ c) × ((c ≡ a) ⊎ (get_elem? flags c ≡ some true))
  Move-returned a c (enters e) h = absurd cc
  Move-returned a c loads h = absurd cc
  Move-returned a c (stores room e) h = absurd cc
  Move-returned a c (looks e) h = absurd cc
  Move-returned a c (skips ne f) h = absurd cc
  Move-returned {flags} a c (returns {a = b} {c = d} e) h =
      let same : d ≡ c = cc in
      let began : b ≡ a = cc in
      (
        same,
        elim e [
          | inl back ↦ inl (sym same ∙ back ∙ began)
          | inr good ↦ inr (ap (get_elem? flags) (sym same) ∙ good)
        ],
      )

  -- A statement of a call that has begun keeps where it began.
  Move-began :
      {flags : List Bool} {x y : ℕ} {p q : Pc}
      → Move flags len x p y q
      → IsBusy p
      → began q ≡ began p
  Move-began (enters e) busy = absurd (busy tt)
  Move-began loads busy = refl
  Move-began (stores room e) busy = refl
  Move-began (looks e) busy = refl
  Move-began (skips ne f) busy = refl
  Move-began (returns e) busy = refl

  Step-began :
      {s t : Shared} (i : ℕ) → Step len s t → IsBusy (s.pc i) → began (t.pc i) ≡ began (s.pc i)
  Step-began {s} i (moves j {q} at mv free) busy = elim (Bool-cases (j == i)) [
    | inl same ↦
        let here : s.pc i ≡ s.pc j = ap s.pc (sym ((==_iff j i).0 same)) in
        rw same (Move-began mv (subst IsBusy (here ∙ at) busy) ∙ ap began (sym (here ∙ at)))
    | inr other ↦ rw other refl
  ]
  Step-began {s} i (leaves j at) busy = elim (Bool-cases (j == i)) [
    | inl same ↦
        let here : s.pc i ≡ s.pc j = ap s.pc (sym ((==_iff j i).0 same)) in
        absurd (subst IsBusy (here ∙ at) busy tt)
    | inr other ↦ rw other refl
  ]
  Step-began i waits busy = refl
  Step-began i (stores_flags flags wait idle size) busy = refl

  Step-returned :
      {s t : Shared} (i a c : ℕ)
      → Step len s t
      → t.pc i ≡ returned a c
      → IsBusy (s.pc i)
      → (t.cursor ≡ c) × ((c ≡ a) ⊎ (get_elem? s.flags c ≡ some true))
  Step-returned {s} i a c (moves j {q} at mv free) now busy = elim (Bool-cases (j == i)) [
    | inl same ↦ Move-returned a c mv (ground (arith, now, same))
    | inr other ↦
        let kept : s.pc i ≡ returned a c = ground (arith, now, other) in
        absurd (subst IsBusy kept busy tt)
  ]
  Step-returned {s} i a c (leaves j at) now busy = elim (Bool-cases (j == i)) [
    | inl same ↦ absurd (ground (arith, now, same))
    | inr other ↦
        let kept : s.pc i ≡ returned a c = ground (arith, now, other) in
        absurd (subst IsBusy kept busy tt)
  ]
  Step-returned i a c waits now busy = absurd (subst IsBusy now busy tt)
  Step-returned i a c (stores_flags flags wait idle size) now busy =
      absurd (subst IsBusy now busy tt)

  -- The steps of all goroutines while a call of goroutine `i` runs, from the state before it begins.
  pub data During (i : ℕ) (s : Shared) : Shared → Type 0 where
    begins :
        {t : Shared} {a : ℕ}
        → Step len s t
        → s.pc i ≡ Pc.outside
        → t.pc i ≡ entered a
        → During i s t
    goes_on : {t u : Shared} → During i s t → IsBusy (t.pc i) → Step len t u → During i s u

  -- The first statement of a call looks at the cursor.
  Step-entered :
      {s t : Shared} (i a : ℕ)
      → Step len s t
      → s.pc i ≡ Pc.outside
      → t.pc i ≡ entered a
      → (a ≡ s.cursor % len) × (t.flags ≡ s.flags)
  Step-entered {s} i a (moves j at mv free) idle now = elim (Bool-cases (j == i)) [
    | inl same ↦
        let here : s.pc i ≡ s.pc j = ap s.pc (sym ((==_iff j i).0 same)) in
        (Move-entered a mv (sym (here ∙ at) ∙ idle) (ground (arith, now, same)), refl)
    | inr other ↦ absurd (ground (arith, now, idle, other))
  ]
  Step-entered {s} i a (leaves j at) idle now = elim (Bool-cases (j == i)) [
    | inl same ↦ absurd (ground (arith, now, same))
    | inr other ↦ absurd (ground (arith, now, idle, other))
  ]
  Step-entered i a waits idle now = absurd (cc (sym idle ∙ now))
  Step-entered i a (stores_flags flags wait still size) idle now = absurd (cc (sym idle ∙ now))

  During-began :
      {i : ℕ} {s t : Shared}
      → During i s t
      → (began (t.pc i) ≡ some (s.cursor % len)) × (t.flags ≡ s.flags)
  During-began {i} (begins {a} step idle now) =
      let (at, same) = Step-entered i a step idle now in (ap began now ∙ ap some at, same)
  During-began {i} (goes_on r busy step) =
      let (at, same) = During-began r in
      (Step-began i step busy ∙ at, Step-flags i busy step ∙ same)

  During-Run : {i : ℕ} {r s t : Shared} → Run len r s → During i s t → Run len r t
  During-Run run (begins step idle now) = next run step
  During-Run run (goes_on r busy step) = next (During-Run run r) step

  -- However calls of `Select` and `updateSelection` interleave, there being nodes, and as long as the
  -- cursor does not overflow: a call that returns does so with an index in range, which it leaves in the
  -- cursor. The lock keeps the flags as they were when the call began: the index is that of a node that
  -- was eligible then, and still is, or the one where the cursor stood when the call began.
  pub During-returned :
      (flags : List Bool) (x : ℕ) (s t : Shared) (i a c : ℕ)
      → Run len (start flags x) s
      → During i s t
      → t.pc i ≡ returned a c
      → (c < len)
        × (t.cursor ≡ c)
        × (t.flags ≡ s.flags)
        × ((c ≡ s.cursor % len) ⊎ (get_elem? s.flags c ≡ some true))
  During-returned flags x s t i a c run (begins step idle entered_now) now =
      absurd (cc (sym entered_now ∙ now))
  During-returned flags x s t i a c run (goes_on {t = before} r busy step) now =
      let all = During-Run run (goes_on r busy step) in
      let (begun, inside) = subst (IsInRange len) now (Run-IsInRange all (λ j. tt) i) in
      let (first, same) = During-began (goes_on r busy step) in
      let (left, found) = Step-returned i a c step now busy in
      let origin : a ≡ s.cursor % len = some-injective _ _ (sym (ap began now) ∙ first) in
      (
        inside,
        left,
        same,
        elim found [
          | inl back ↦ inl (back ∙ origin)
          | inr good ↦ inr (ap (λ l. get_elem? l c) (sym (During-began r).1) ∙ good)
        ],
      )
