-- ===== src/Tools/Metric/Entries.antt =====
-- Which entries of a metric are sent.
use bridge_common.Prelude.{
  ℕ, ◌≡◌, refl, ap, sym, ◌∙◌, Bool, true, false, not, ◌&&◌, List, [], ◌∷◌, ◌++◌, map, none, some,
  if◌then◌else◌, ◌==◌, arith, Bool-cases, inl, inr, append-nil, append_assoc, ◌↔◌,
}
use bridge_common.Prelude.Text.{Text}
use bridge_common.Tools.Metric.{Metric, new_metric, value, pair, value, split, two, keep, compile}

-- No byte is `=`.
pub clean : Text → Bool
clean [] = true
clean (c ∷ cs) = not (c == b'=') && clean cs

split-cons : (t : Text) → (x : Text) × (xs : List Text) × (split t ≡ x ∷ xs)
unfolding split
split-cons [] = ([], [], refl)
split-cons (c ∷ cs) =
    let (x, xs, e) = split-cons cs in
    elim (Bool-cases (c == b'=')) [
      | inl sep ↦ ([], split cs, rw sep)
      | inr other ↦ (c ∷ x, xs, rw (other, e))
    ]

split-clean : (t : Text) → clean t ≡ true → split t ≡ t ∷ []
unfolding split clean
split-clean [] h = refl
split-clean (c ∷ cs) h = ground (arith, split-clean cs)

-- The parts of two texts joined by `=` are the parts of the one and those of the other.
split-pair : (k v : Text) → split (pair k v) ≡ split k ++ split v
unfolding split
split-pair [] v = refl
split-pair (c ∷ cs) v = let (x, xs, e) = split-cons cs in ground (arith, split-pair cs v, e)

split-dirty :
    (t : Text) → clean t ≡ false → (x y : Text) × (xs : List Text) × (split t ≡ x ∷ y ∷ xs)
unfolding split clean
split-dirty [] h = cc
split-dirty (c ∷ cs) h = elim (Bool-cases (c == b'=')) [
  | inl sep ↦ let (x, xs, e) = split-cons cs in ([], x, xs, rw (sep, e))
  | inr other ↦ let (x, y, xs, e) = split-dirty cs (ground arith) in (c ∷ x, y, xs, rw (other, e))
]

three :
    (x y : Text) (xs : List Text) (z : Text) (zs : List Text)
    → two ((x ∷ y ∷ xs) ++ (z ∷ zs)) ≡ none
unfolding two
three x y [] z zs = refl
three x y (w ∷ xs) z zs = refl

-- An entry splits in two exactly when neither its key nor its value has a `=`.
two-split-pair :
    (k v : Text) → two (split (pair k v)) ≡ (if clean k && clean v then some (k, v) else none)
unfolding two
two-split-pair k v = elim (Bool-cases (clean k)) [
  | inl kc ↦ elim (Bool-cases (clean v)) [
    | inl vc ↦ rw (split-pair k v, split-clean k kc, split-clean v vc, kc, vc)
    | inr vd ↦
        let (x, y, xs, e) = split-dirty v vd in rw (split-pair k v, split-clean k kc, e, kc, vd)
  ]
  | inr kd ↦
      let (x, y, xs, e) = split-dirty k kd in
      let (z, zs, f) = split-cons v in rw (split-pair k v, e, f, kd) (three x y xs z zs)
]

abbrev entry_text : Text × Text → Text
entry_text (k, v) = pair k v

-- The entries that are sent.
pub only_clean : List (Text × Text) → List (Text × Text)
only_clean [] = []
only_clean ((k, v) ∷ es) = if clean k && clean v then (k, v) ∷ only_clean es else only_clean es

-- The calls of `Value`, in order.
pub value_all : List (Text × Text) → Metric → Metric
value_all [] m = m
value_all ((k, v) ∷ es) m = value_all es (value k v m)

value_all-values :
    (es : List (Text × Text)) (m : Metric)
    → ((value_all es m).values ≡ m.values ++ map entry_text es) × ((value_all es m).name ≡ m.name)
unfolding value_all value
value_all-values [] m = (sym (append-nil m.values), refl)
value_all-values ((k, v) ∷ es) m =
    let (vs, n) = value_all-values es (value k v m) in
    (vs ∙ append_assoc m.values (pair k v ∷ []) (map entry_text es), n)

keep-entries :
    (name : Text) (es : List (Text × Text))
    → keep name (map entry_text es)
      ≡ (map (λ e. name ++ (b'.' ∷ e.0)) (only_clean es), map (λ e. e.1) (only_clean es))
unfolding keep only_clean
keep-entries name [] = refl
keep-entries name ((k, v) ∷ es) = ground (arith, two-split-pair k v, keep-entries name es)

-- Of the values recorded `Compile` sends, in order and under the metric's name, exactly those in
-- whose key and text no `=` stands, and the others are lost.
pub keep-value_all :
    (name : Text) (es : List (Text × Text))
    → keep name (value_all es (new_metric name)).values
      ≡ (map (λ e. name ++ (b'.' ∷ e.0)) (only_clean es), map (λ e. e.1) (only_clean es))
unfolding new_metric
keep-value_all name es =
    ap (keep name) (value_all-values es (new_metric name)).0 ∙ keep-entries name es

compile_empty : (now : ℕ) (m : Metric) → (compile now m ≡ []) ↔ ((keep m.name m.values).0 ≡ [])
unfolding compile
compile_empty now m = ground arith

map_empty : {A B : Type 0} (f : A → B) (xs : List A) → (map f xs ≡ []) ↔ (xs ≡ [])
map_empty f [] = ((λ e. refl), λ e. refl)
map_empty f (x ∷ xs) = ((λ e. cc e), λ e. cc e)

-- The text is empty, and `Record` sends nothing, exactly when no entry is kept.
pub compile-value_all :
    (now : ℕ) (name : Text) (es : List (Text × Text))
    → (compile now (value_all es (new_metric name)) ≡ []) ↔ (only_clean es ≡ [])
unfolding new_metric
compile-value_all now name es =
    let m = value_all es (new_metric name) in
    let kept : (keep m.name m.values).0 ≡ map (λ e. name ++ (b'.' ∷ e.0)) (only_clean es) =
      ap (λ n. (keep n m.values).0) (value_all-values es (new_metric name)).1
      ∙ ap (λ (r : List Text × List Text). r.0) (keep-value_all name es) in
    let e = compile_empty now m in
    let f = map_empty (λ (e : Text × Text). name ++ (b'.' ∷ e.0)) (only_clean es) in
    ((λ h. f.0 (sym kept ∙ e.0 h)), λ h. e.1 (kept ∙ f.1 h))
