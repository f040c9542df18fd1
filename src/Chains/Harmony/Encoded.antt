-- ===== src/Chains/Harmony/Encoded.antt =====
-- What the client of `chains/harmony` reads from texts in hexadecimal.
use bridge_common.Prelude.{
  take-append, ℕ, suc, ◌≡◌, ◌≢◌, refl, ap, ◌∙◌, ◌⊎◌, inl, inr, true, [], ◌∷◌, ◌++◌, some, length,
  take, length-append, arith,
}
use bridge_common.Prelude.Text.{Text}
use bridge_common.Util.Bytes.{Bytes, hex_encode, hex_decode}
use bridge_common.Util.Bytes.Laws.{IsBytes, hex_decode-hex_encode}
use bridge_common.Chains.Harmony.{header_by_number_rlp}
use bridge_common.Chains.Harmony.Header.{
  Header, signature_text, get_last_commit_signature, get_last_commit_bitmap,
}

-- The bytes between the quotes.
header_by_number_rlp-quoted :
    (q r : ℕ) (t : Text) → header_by_number_rlp (some (q ∷ (t ++ (r ∷ [])))) ≡ some (hex_decode t)
unfolding header_by_number_rlp
header_by_number_rlp-quoted q r [] = refl
header_by_number_rlp-quoted q r (c ∷ cs) =
    ap (λ n. some (hex_decode (take n (c ∷ (cs ++ (r ∷ [])))))) {x = length (cs ++ (r ∷ []))}
      {y = suc (length cs)} (omega (arith, length-append cs (r ∷ [])))
    ∙ ap (λ t. some (hex_decode t)) (take-append (c ∷ cs) (r ∷ []))

-- `HeaderByNumberRLP` returns the bytes of the header, and no error, when the node's result is their
-- text in hexadecimal between two quotes.
pub header_by_number_rlp-hex_encode :
    (bs : Bytes)
    → IsBytes bs
    → header_by_number_rlp (some (b'"' ∷ (hex_encode bs ++ (b'"' ∷ [])))) ≡ some (bs, true)
header_by_number_rlp-hex_encode bs h =
    header_by_number_rlp-quoted b'"' b'"' (hex_encode bs) ∙ ap some (hex_decode-hex_encode bs h)

signature_text-given :
    (t other : Text) (bs : Bytes)
    → bs ≢ []
    → t ≡ hex_encode bs
    → signature_text t other ≡ hex_encode bs
unfolding signature_text hex_encode
signature_text-given [] other [] h e = absurd (h refl)
signature_text-given [] other (b ∷ bs) h e = absurd (grind arith)
signature_text-given (c ∷ cs) other bs h e = e

-- The signature of a header is read from either of its two fields, whichever of the names the node
-- uses, and the bitmap from its own, when they hold bytes in hexadecimal; the first field of the two
-- goes before the second when it is not empty.
pub get_last_commit-hex_encode :
    (h : Header) (sig bitmap : Bytes)
    → IsBytes sig
    → IsBytes bitmap
    → ((sig ≢ []) × (h.last_commit_signature ≡ hex_encode sig))
      ⊎ ((h.last_commit_signature ≡ []) × (h.last_commit_sig ≡ hex_encode sig))
    → h.last_commit_bitmap ≡ hex_encode bitmap
    → (get_last_commit_signature h ≡ (sig, true)) × (get_last_commit_bitmap h ≡ (bitmap, true))
unfolding get_last_commit_signature get_last_commit_bitmap signature_text
get_last_commit-hex_encode h sig bitmap s b (inl (some_bytes, e)) f = (
  ap hex_decode (signature_text-given h.last_commit_signature h.last_commit_sig sig some_bytes e)
      ∙ hex_decode-hex_encode sig s,
  ap hex_decode f ∙ hex_decode-hex_encode bitmap b,
)
get_last_commit-hex_encode h sig bitmap s b (inr (empty, e)) f = (
  ap (λ t. hex_decode (signature_text t h.last_commit_sig)) empty
      ∙ ap hex_decode e
      ∙ hex_decode-hex_encode sig s,
  ap hex_decode f ∙ hex_decode-hex_encode bitmap b,
)
