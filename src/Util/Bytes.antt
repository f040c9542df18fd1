-- ===== src/Util/Bytes.antt =====
-- `Reverse`, `Concat`, `ReverseHex` and `LowerHex` of `util/util.go`, with the parts of
-- `encoding/hex` and `strings` that they use. A byte is a number below 256.
pub mod Laws
use bridge_common.Prelude.{
  ℕ, zero, suc, ◌+◌, ◌-◌, ◌*◌, ◌/◌, ◌%◌, ◌<◌, Bool, true, false, ◌&&◌, List, [], ◌∷◌, ◌++◌, Option,
  none, some, length, set, replicate, if◌then◌else◌, ltb, leb, ◌==◌,
}
use bridge_common.Prelude.Text.{Text}

abbrev pub Bytes : Type 0
Bytes = List ℕ

-- The loop of `Reverse` from index `i`, over the bytes that are left.
unfoldable pub reverse_from : ℕ → ℕ → Bytes → Bytes → Bytes
reverse_from size i [] b = b
reverse_from size i (v ∷ a) b = reverse_from size (i + 1) a (set b (size - i - 1) v)

unfoldable pub reverse : Bytes → Bytes
unfolding reverse_from
reverse a = reverse_from (length a) 0 a (replicate (length a) 0)

-- `append(b, d...)` for each `d`.
unfoldable pub concat_from : Bytes → List Bytes → Bytes
concat_from b [] = b
concat_from b (d ∷ ds) = concat_from (b ++ d) ds

unfoldable pub concat : List Bytes → Bytes
unfolding concat_from
concat = concat_from []

-- `hex.EncodeToString`
unfoldable pub hex_digit : ℕ → ℕ
hex_digit n = if ltb n 10 then b'0' + n else b'a' + n - 10

unfoldable pub hex_encode : Bytes → Text
hex_encode [] = []
hex_encode (b ∷ bs) = hex_digit (b / 16) ∷ hex_digit (b % 16) ∷ hex_encode bs

-- `hex.DecodeString`: the bytes before the first error, and whether there is none.
unfoldable pub hex_value : ℕ → Option ℕ
hex_value c =
    if leb b'0' c && leb c b'9'
    then some (c - b'0')
    else if leb b'a' c && leb c b'f'
    then some (c - b'a' + 10)
    else if leb b'A' c && leb c b'F'
    then some (c - b'A' + 10)
    else none

unfoldable pub hex_byte : ℕ → ℕ → Option ℕ
hex_byte a b = elim (hex_value a) [
  | none ↦ none
  | some x ↦ elim (hex_value b) [ none ↦ none | some y ↦ some (x * 16 + y) ]
]

unfoldable pub hex_decode : Text → Bytes × Bool
hex_decode [] = ([], true)
hex_decode (a ∷ []) = ([], false)
hex_decode (a ∷ b ∷ cs) =
    let (bs, ok) = hex_decode cs in
    elim (hex_byte a b) [ none ↦ ([], false) | some x ↦ (x ∷ bs, ok) ]

unfoldable pub reverse_hex : Text → Text
reverse_hex a = hex_encode (reverse (hex_decode a).0)

-- `strings.ToLower` of an ASCII text.
unfoldable pub to_lower : Text → Text
to_lower [] = []
to_lower (c ∷ cs) = (if leb b'A' c && leb c b'Z' then c + 32 else c) ∷ to_lower cs

-- `strings.TrimPrefix(a, "0x")`
unfoldable pub trim_0x : Text → Text
trim_0x [] = []
trim_0x (c ∷ []) = c ∷ []
trim_0x (c ∷ d ∷ cs) = if (c == b'0') && (d == b'x') then cs else c ∷ d ∷ cs

unfoldable pub lower_hex : Text → Text
lower_hex a = to_lower (trim_0x a)
