-- ===== src/Tools/MetricWriter/Batches.antt =====
-- `Record` and `poll` of `tools/metric.go`: what becomes of the entries.
use bridge_common.Prelude.{
  ℕ, ◌≤◌, ◌<◌, ◌≡◌, refl, subst, ◌⊎◌, inl, inr, Bool, true, false, List, [], ◌∷◌, ◌++◌, Option,
  some, length, if◌then◌else◌, ltb, leb, arith, Bool-cases, ltb→lt, length-append, append_assoc,
}
use bridge_common.Prelude.Text.{Text, join}
use bridge_common.Tools.MetricWriter.{channel_size, record_entry, Event, received, fires, poll}

-- `Record` never blocks and never overfills the channel: the entry goes to its end if there is text
-- and room, and is dropped otherwise.
pub record_entry_lem :
    (m : Text) (ch : List Text)
    → length ch ≤ channel_size
    → (length (record_entry m ch) ≤ channel_size)
      × ((record_entry m ch ≡ ch ++ (m ∷ [])) × (length ch < channel_size) × (0 < length m)
          ⊎ (record_entry m ch ≡ ch) × ((length ch ≡ channel_size) ⊎ (length m ≡ 0)))
unfolding record_entry
record_entry_lem [] ch h = (h, inr (refl, inr refl))
record_entry_lem (c ∷ cs) ch h = ground (arith, length-append ch ((c ∷ cs) ∷ []))

-- The entries among the events.
pub entries_of : List Event → List Text
entries_of [] = []
entries_of (received m ∷ es) = m ∷ entries_of es
entries_of (fires ∷ es) = entries_of es

-- What `poll` returns: a batch of one or more entries, at most `count`, in the order received, after
-- which the rest follows.
pub record IsBatch (count : ℕ) (all : List Text) (text : Text) (rest : List Event) : Type 0 where
  pub batch : List Text
  pub joined : text ≡ join batch []
  pub some_entry : 0 < length batch
  pub few : length batch ≤ count
  pub in_order : all ≡ batch ++ entries_of rest

poll-IsBatch :
    (count : ℕ) (es : List Event) (entries : List Text) (text : Text) (rest : List Event)
    → length entries < count
    → poll count es entries ≡ some (text, rest)
    → IsBatch count (entries ++ entries_of es) text rest
unfolding poll entries_of
poll-IsBatch count [] entries text rest h e = cc
poll-IsBatch count (received m ∷ es) entries text rest h e =
    elim (Bool-cases (leb count (length (entries ++ (m ∷ []))))) [
      | inl enough ↦ record {
        batch = entries ++ (m ∷ []);
        joined = ground arith;
        some_entry = omega (arith, length-append entries (m ∷ []));
        few = omega (arith, length-append entries (m ∷ []));
        in_order = ground (arith, append_assoc entries (m ∷ []) (entries_of es));
      }
      | inr more ↦
          subst (λ all. IsBatch count all text rest) (append_assoc entries (m ∷ []) (entries_of es))
            (poll-IsBatch count es (entries ++ (m ∷ [])) text rest (ground arith) (ground arith))
    ]
poll-IsBatch count (fires ∷ es) entries text rest h e = elim (Bool-cases (ltb 0 (length entries))) [
  | inl some_yet ↦ record {
    batch = entries;
    joined = ground arith;
    some_entry = ltb→lt _ _ some_yet;
    few = omega arith;
    in_order = ground arith;
  }
  | inr none_yet ↦ poll-IsBatch count es entries text rest h (ground arith)
]

-- A batch that `poll` returns has at least one entry and at most `count`, in the order received, and
-- no entry is lost or taken twice.
pub poll_lem :
    (count : ℕ) (es : List Event) (text : Text) (rest : List Event)
    → 0 < count
    → poll count es [] ≡ some (text, rest)
    → IsBatch count (entries_of es) text rest
poll_lem count es text rest h e = poll-IsBatch count es [] text rest h e

if_returns :
    {A : Type 0} (b : Bool) (a : A) (o : Option A)
    → (r : A) × (o ≡ some r)
    → (r : A) × ((if b then some a else o) ≡ some r)
if_returns true a o h = (a, refl)
if_returns false a o h = h

if_some :
    {A : Type 0} (b : Bool) (a : A) (o : Option A)
    → b ≡ true
    → (r : A) × ((if b then some a else o) ≡ some r)
if_some true a o h = (a, refl)
if_some false a o h = cc

-- `poll` returns at the latest when the timer fires after an entry has come.
pub poll_ends :
    (count : ℕ) (before : List Event) (m : Text) (after : List Event) (entries : List Text)
    → (r : Text × List Event) × (poll count (before ++ (received m ∷ fires ∷ after)) entries
        ≡ some r)
unfolding poll
poll_ends count [] m after entries = if_returns _ _ _ (
    if_some (ltb 0 (length (entries ++ (m ∷ [])))) _ _
      (ground (arith, length-append entries (m ∷ []))))
poll_ends count (received n ∷ es) m after entries =
    if_returns _ _ _ (poll_ends count es m after (entries ++ (n ∷ [])))
poll_ends count (fires ∷ es) m after entries = if_returns _ _ _ (poll_ends count es m after entries)

-- Whatever events come before, once an entry has come and then the timer fires, `poll` has returned: a
-- batch with at least one entry and at most `count`, in the order received, and no entry is lost or
-- taken twice.
pub poll-returns :
    (count : ℕ) (before : List Event) (m : Text) (after : List Event)
    → 0 < count
    → let es = before ++ (received m ∷ fires ∷ after) in
      (text : Text) × (rest : List Event) × (poll count es [] ≡ some (text, rest))
      × IsBatch count (entries_of es) text rest
poll-returns count before m after h =
    let ((text, rest), e) = poll_ends count before m after [] in
    (text, rest, e, poll_lem count (before ++ (received m ∷ fires ∷ after)) text rest h e)
