-- ===== src/Chains/Bridge/Requests.antt =====
-- The requests of `chains/bridge/tx.go`, `chains/bridge/fee.go` and `chains/bridge/token.go`, over the
-- helpers of `tools/ding.go`. `P` is the type of a request, `R` of its response, and `fresh` a new one.
use bridge_common.Prelude.{
  ◌≡◌, refl, inl, inr, Bool, true, false, ◌++◌, Option, none, some, Option-cases,
}
use bridge_common.Prelude.Text.{Text, codes}
use bridge_common.Util.Bytes.{Bytes}
use bridge_common.Tools.Ding.{Web, Posted, panics, posted, decode, post_json_for, get_json_for}
use bridge_common.Chains.Bridge.{Client}

-- What a request returns: a panic, or a response, nil or not, and whether there is an error.
pub data Asked (R : Type 0) : Type 0 where
  fails : Asked R
  answers : Option R → Bool → Asked R

abbrev pub asked : {R : Type 0} → Posted R → Asked R
asked panics = fails
asked (posted r true) = answers none true
asked (posted r false) = answers (some r) false

module _ {P R : Type 0} (web : Web P R) (fresh : R) where
  unfoldable pub check_tx : Client → P → Asked R
  check_tx c req = asked (post_json_for web (c.address ++ codes "/transactionofhash") req fresh)

  unfoldable pub fetch_tx : Client → Text → Asked R
  fetch_tx c hash =
      asked (get_json_for web (c.explorer ++ (codes "/getcrosstx?txhash=" ++ hash)) fresh)

  unfoldable pub get_fee : Client → P → Asked R
  get_fee c req = asked (post_json_for web (c.address ++ codes "/getfee") req fresh)

-- `CheckFee` and `Token` decode the response into the request.
module _ {P : Type 0} (web : Web P P) where
  unfoldable pub check_fee : Client → P → Posted P
  check_fee c req = post_json_for web (c.address ++ codes "/newcheckfee") req req

  unfoldable pub token : Client → P → Posted P
  token c req = post_json_for web (c.address ++ codes "/token/") req req

module _ {P R : Type 0} (web : Web P R) (fresh : R) where
  -- The body of the server's answer to a payload, if it comes.
  abbrev pub body_of : Text → P → Option Bytes
  body_of url req = elim (web.marshal req) [
    | none ↦ none
    | some sent ↦ web.exchange url (some sent)
  ]

  -- What comes of a request whose URL is good: nothing with an error, or what decoding left.
  abbrev pub outcome : Option Bytes → Asked R
  outcome none = answers none true
  outcome (some body) = answers (some (web.unmarshal body fresh).0) false

  decoded : (answer : Option Bytes) → asked (decode web answer fresh) ≡ outcome answer
  decoded none = refl
  decoded (some body) = refl

  posted-outcome :
      (url : Text) (req : P)
      → web.valid_url url ≡ true
      → asked (post_json_for web url req fresh) ≡ outcome (body_of url req)
  unfolding post_json_for
  posted-outcome url req good = elim (Option-cases (web.marshal req)) [
    | inl m ↦ rw (m, post_json_for, body_of) refl
    | inr (sent, m) ↦ rw (m, post_json_for, body_of, good) (decoded (web.exchange url (some sent)))
  ]

  -- If their own URLs make a request, `CheckTx`, `GetFee` and `FetchTx` return nil and an error if no
  -- body comes from the server, and otherwise a response and no error, and this also where decoding
  -- the body fails: the response is then what decoding left of a new one.
  pub requests-outcome :
      (c : Client) (req : P) (hash : Text)
      → let check_url = c.address ++ codes "/transactionofhash" in
        let fee_url = c.address ++ codes "/getfee" in
        let fetch_url = c.explorer ++ (codes "/getcrosstx?txhash=" ++ hash) in
        web.valid_url check_url ≡ true
        → web.valid_url fee_url ≡ true
        → web.valid_url fetch_url ≡ true
        → (check_tx web fresh c req ≡ outcome (body_of check_url req))
          × (get_fee web fresh c req ≡ outcome (body_of fee_url req))
          × (fetch_tx web fresh c hash ≡ outcome (web.exchange fetch_url none))
  unfolding check_tx get_fee fetch_tx get_json_for
  requests-outcome c req hash check_ok fee_ok fetch_ok =
      let url = c.explorer ++ (codes "/getcrosstx?txhash=" ++ hash) in
      (
        posted-outcome (c.address ++ codes "/transactionofhash") req check_ok,
        posted-outcome (c.address ++ codes "/getfee") req fee_ok,
        rw fetch_ok (decoded (web.exchange url none)),
      )
