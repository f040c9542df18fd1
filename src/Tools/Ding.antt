-- ===== src/Tools/Ding.antt =====
-- The HTTP helpers of `tools/ding.go`. `P` is the type of payloads, `R` of results; what `net/http`
-- and `encoding/json` do is an argument.
pub mod Cards
use bridge_common.Prelude.{ℕ, List, [], ◌∷◌, ◌++◌, Bool, true, false, Option, none, some}
use bridge_common.Prelude.Text.{Text, codes}
use bridge_common.Util.Bytes.{Bytes}

-- The outside of a call: whether the URL makes a request, and what `json.Marshal`, `Client.Do` with
-- `ReadAll`, and `json.Unmarshal` do. The result of `Unmarshal` is what the value decoded into is
-- afterwards, and whether there is no error.
pub record Web (P R : Type 0) : Type 0 where
  pub valid_url : Text → Bool
  pub marshal : P → Option Bytes
  pub exchange : Text → Option Bytes → Option Bytes
  pub unmarshal : Bytes → R → R × Bool

-- Results: a panic, or the value decoded into and whether an error is returned.
pub data Posted (R : Type 0) : Type 0 where
  panics : Posted R
  posted : R → Bool → Posted R

module _ {P R : Type 0} (web : Web P R) where
  -- From the response on; an error of `Unmarshal` is printed only.
  abbrev pub decode : Option Bytes → R → Posted R
  decode none result = posted result true
  decode (some body) result = posted (web.unmarshal body result).0 false

  -- The request, whose error is not looked at: without one the call follows a nil pointer.
  abbrev pub request : Bool → Text → Option Bytes → R → Posted R
  request false url sent result = panics
  request true url sent result = decode (web.exchange url sent) result

  unfoldable pub post_json_for : Text → P → R → Posted R
  post_json_for url payload result = elim (web.marshal payload) [
    | none ↦ posted result true
    | some sent ↦ request (web.valid_url url) url (some sent) result
  ]

  unfoldable pub get_json_for : Text → R → Posted R
  get_json_for url result = request (web.valid_url url) url none result

  -- `PostJson`, which returns nothing but the error.
  abbrev pub read_only : Bool → Option Bytes → Posted (Unit {0})
  read_only false answer = panics
  read_only true none = posted tt true
  read_only true (some body) = posted tt false

  unfoldable pub post_json : Text → P → Posted (Unit {0})
  post_json url payload = elim (web.marshal payload) [
    | none ↦ posted tt true
    | some sent ↦ read_only (web.valid_url url) (web.exchange url (some sent))
  ]

-- The lines of a card: the keys in order, each with the value at its place, if there is one.
unfoldable pub card_lines : List Text → List Text → Text
card_lines [] values = []
card_lines (k ∷ keys) [] = []
card_lines (k ∷ keys) (v ∷ values) =
    codes "\n- " ++ (k ++ (codes " " ++ (v ++ card_lines keys values)))

-- The text that `PostDingCardKV` posts, by the values and the time as `%v` prints them.
unfoldable pub card_text : Text → List Text → List Text → Text → Text
unfolding card_lines
card_text title keys values now =
    codes "## " ++ (title ++ card_lines (keys ++ (codes "ReportTime" ∷ [])) (values ++ (now ∷ [])))

-- The loop of `PostDingCardSimple`, over the entries in the order of the iteration.
unfoldable pub entry_lines : List (Text × Text) → Text
entry_lines [] = []
entry_lines ((k, v) ∷ body) = codes "\n- " ++ (k ++ (codes " " ++ (v ++ entry_lines body)))

unfoldable pub simple_text : Text → List (Text × Text) → Text
unfolding entry_lines
simple_text title body = codes "## " ++ (title ++ entry_lines body)

-- The payload of a card, with its fields as in the JSON object; `B` is the type of buttons.
pub record Card (B : Type 0) : Type 0 where
  pub title : Text
  pub text : Text
  pub hide_avatar : ℕ
  pub btns : B

pub record CardPayload (B : Type 0) : Type 0 where
  pub msgtype : Text
  pub action_card : Card B

-- The results of `Format`.
pub record CardEvent (B : Type 0) : Type 0 where
  pub title : Text
  pub keys : List Text
  pub values : List Text
  pub buttons : B

-- `url` is the variable `DingUrl`. The results are those of `PostJson`, whose error is logged.
module _ {B R : Type 0} (web : Web (CardPayload B) R) (url : Text) where
  unfoldable pub post_ding_card : Text → Text → B → Posted (Unit {0})
  unfolding post_json
  post_ding_card title body btns = post_json web url (record {
    msgtype = codes "actionCard";
    action_card = record { title = title; text = body; hide_avatar = 0; btns = btns };
  })

  unfoldable pub post_ding_card_kv : Text → List Text → List Text → B → Text → Posted (Unit {0})
  unfolding card_text post_ding_card
  post_ding_card_kv title keys values btns now =
      post_ding_card title (card_text title keys values now) btns

  unfoldable pub post_ding_card_simple : Text → List (Text × Text) → B → Posted (Unit {0})
  unfolding simple_text post_ding_card
  post_ding_card_simple title body btns = post_ding_card title (simple_text title body) btns

  unfoldable pub post_card_event : CardEvent B → Text → Posted (Unit {0})
  unfolding post_ding_card_kv
  post_card_event ev now = post_ding_card_kv ev.title ev.keys ev.values ev.buttons now
