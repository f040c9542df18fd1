-- ===== src/Util/Bytes/Laws.antt =====
-- The laws of `Reverse`, `Concat`, `ReverseHex` and `LowerHex` of `util/util.go`.
use mathlib.Core.List
use mathlib.Core.List.{reverse-cons, reverse-reverse, flatten, append-nil}
use bridge_common.Prelude.{
  ℕ, zero, suc, ◌+◌, ◌-◌, ◌/◌, ◌%◌, ◌≤◌, ◌<◌, ◌≡◌, refl, sym, subst, ap, ◌∙◌, Bool, true, List, [],
  ◌∷◌, ◌++◌, some, length, set, replicate, All, arith, append_assoc, length-set, length-replicate,
  drop, drop-set,
}
use bridge_common.Util.Bytes.{
  Bytes, reverse_from, reverse, concat_from, concat, hex_digit, hex_encode, hex_value, hex_byte,
  hex_decode, reverse_hex,
}

reverse_from-eq :
    (size i : ℕ) (a b : Bytes)
    → size ≡ i + length a
    → length b ≡ size
    → reverse_from size i a b ≡ List.reverse a ++ drop (length a) b
unfolding reverse_from
reverse_from-eq size i [] b e l = refl
reverse_from-eq size i (v ∷ a) b e l =
    reverse_from-eq size (i + 1) a (set b (size - i - 1) v) (omega arith)
      (length-set b (size - i - 1) v ∙ l)
    ∙ ap (λ k. List.reverse a ++ drop (length a) (set b k v)) (omega arith)
    ∙ ap (λ r. List.reverse a ++ r) (drop-set b (length a) v (omega arith))
    ∙ sym (append_assoc (List.reverse a) (v ∷ []) (drop (suc (length a)) b))
    ∙ ap (λ r. r ++ drop (suc (length a)) b) (sym (reverse-cons v a))

drop_all : (xs : List ℕ) (n : ℕ) → length xs ≤ n → drop n xs ≡ []
drop_all [] zero h = refl
drop_all [] (suc n) h = refl
drop_all (x ∷ xs) zero h = absurd (omega arith)
drop_all (x ∷ xs) (suc n) h = drop_all xs n (omega arith)

-- The loop of `Reverse`, which writes by index, reverses.
pub reverse_lem : (a : Bytes) → reverse a ≡ List.reverse a
unfolding reverse
reverse_lem a =
    reverse_from-eq (length a) 0 a (replicate (length a) 0) (omega arith)
      (length-replicate {A = ℕ} (length a) 0)
    ∙ ap (λ r. List.reverse a ++ r)
        (drop_all (replicate (length a) 0) (length a)
          (omega (arith, length-replicate {A = ℕ} (length a) 0)))
    ∙ append-nil (List.reverse a)

hex_value-hex_digit : (n : ℕ) → n < 16 → hex_value (hex_digit n) ≡ some n
unfolding hex_value hex_digit
hex_value-hex_digit n h = ground arith

-- Bytes are below 256.
abbrev pub IsBytes : Bytes → Type 0
IsBytes = All (λ b. b < 256)

hex_byte-digits : (b : ℕ) → b < 256 → hex_byte (hex_digit (b / 16)) (hex_digit (b % 16)) ≡ some b
unfolding hex_byte
hex_byte-digits b h = ground (arith, hex_value-hex_digit (b / 16), hex_value-hex_digit (b % 16))

pub hex_decode-hex_encode : (bs : Bytes) → IsBytes bs → hex_decode (hex_encode bs) ≡ (bs, true)
unfolding hex_decode hex_encode
hex_decode-hex_encode [] h = refl
hex_decode-hex_encode (b ∷ bs) h =
    ground (arith, hex_byte-digits b h.0, hex_decode-hex_encode bs h.1)

All-append-one : (xs : Bytes) (b : ℕ) → IsBytes xs → b < 256 → IsBytes (xs ++ (b ∷ []))
All-append-one [] b h k = (k, tt)
All-append-one (x ∷ xs) b h k = (h.0, All-append-one xs b h.1 k)

reverse-IsBytes : (bs : Bytes) → IsBytes bs → IsBytes (List.reverse bs)
reverse-IsBytes [] h = tt
reverse-IsBytes (b ∷ bs) h =
    subst IsBytes (sym (reverse-cons b bs))
      (All-append-one (List.reverse bs) b (reverse-IsBytes bs h.1) h.0)

-- `ReverseHex` reverses the bytes that a text in lower case hexadecimal stands for, so that it undoes
-- itself.
pub reverse_hex_lem :
    (bs : Bytes)
    → IsBytes bs
    → (reverse_hex (hex_encode bs) ≡ hex_encode (List.reverse bs))
      × (reverse_hex (reverse_hex (hex_encode bs)) ≡ hex_encode bs)
unfolding reverse_hex
reverse_hex_lem bs h =
    let once : (cs : Bytes)
        → IsBytes cs
        → hex_encode (reverse (hex_decode (hex_encode cs)).0) ≡ hex_encode (List.reverse cs) =
      λ cs k.
        ap (λ (r : Bytes × Bool). hex_encode (reverse r.0)) (hex_decode-hex_encode cs k)
        ∙ ap hex_encode (reverse_lem cs) in
    (
      once bs h,
      ap (λ t. hex_encode (reverse (hex_decode t).0)) (once bs h)
          ∙ once (List.reverse bs) (reverse-IsBytes bs h)
          ∙ ap hex_encode (reverse-reverse bs),
    )

concat_from-eq : (b : Bytes) (ds : List Bytes) → concat_from b ds ≡ b ++ flatten ds
unfolding concat_from flatten
concat_from-eq b [] = sym (append-nil b)
concat_from-eq b (d ∷ ds) = concat_from-eq (b ++ d) ds ∙ append_assoc b d (flatten ds)

-- `Concat` joins its arguments in order.
pub concat_lem : (ds : List Bytes) → concat ds ≡ flatten ds
unfolding concat
concat_lem ds = concat_from-eq [] ds
