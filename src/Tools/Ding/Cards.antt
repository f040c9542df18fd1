-- ===== src/Tools/Ding/Cards.antt =====
-- The text of the cards that `PostDingCardKV` of `tools/ding.go` posts.
use bridge_common.Prelude.{
  ◌≤◌, ◌≡◌, sym, ap, ◌∙◌, List, [], ◌∷◌, ◌++◌, length, get_or, append-nil, append_assoc, arith,
}
use bridge_common.Prelude.Text.{Text, codes}
use bridge_common.Tools.Ding.{
  card_lines, card_text, Web, post_json, CardPayload, CardEvent, post_ding_card, post_ding_card_kv,
  post_card_event,
}

-- The line of a key and a value.
abbrev pub line : Text → Text → Text
line k v = codes "\n- " ++ (k ++ (codes " " ++ v))

-- The lines of keys and values that go together, with no more values than keys.
unfoldable pub pair_lines : List Text → List Text → Text
pair_lines keys [] = []
pair_lines [] (v ∷ values) = []
pair_lines (k ∷ keys) (v ∷ values) = line k v ++ pair_lines keys values

line-append :
    (k v rest : Text) → line k v ++ rest ≡ codes "\n- " ++ (k ++ (codes " " ++ (v ++ rest)))
line-append k v rest = ap (λ t. codes "\n- " ++ t) (append_assoc k (codes " " ++ v) rest)

card_lines-last :
    (keys values : List Text) (last now : Text)
    → length values ≤ length keys
    → card_lines (keys ++ (last ∷ [])) (values ++ (now ∷ []))
      ≡ pair_lines keys values ++ line (get_or keys (length values) last) now
unfolding card_lines pair_lines
card_lines-last [] [] last now h =
    ap (λ t. codes "\n- " ++ (last ++ (codes " " ++ t))) (append-nil now)
card_lines-last [] (v ∷ values) last now h = absurd (omega (arith, h))
card_lines-last (k ∷ []) [] last now h =
    ap (λ t. codes "\n- " ++ (k ++ (codes " " ++ t))) (append-nil now)
card_lines-last (k ∷ j ∷ keys) [] last now h =
    ap (λ t. codes "\n- " ++ (k ++ (codes " " ++ t))) (append-nil now)
card_lines-last (k ∷ keys) (v ∷ values) last now h =
    ap (λ t. codes "\n- " ++ (k ++ (codes " " ++ (v ++ t))))
      (card_lines-last keys values last now (omega (arith, h)))
    ∙ sym (line-append k v (pair_lines keys values ++ line (get_or keys (length values) last) now))
    ∙ sym (
        append_assoc (line k v) (pair_lines keys values)
          (line (get_or keys (length values) last) now))

-- With no more values than keys, the card has the title, a line for each value under its key, and the
-- time: under `ReportTime` if every key has a value, and otherwise under the first key that has none.
-- No other key has a line.
pub card_text_lem :
    (title now : Text) (keys values : List Text)
    → length values ≤ length keys
    → card_text title keys values now
      ≡ codes "## "
        ++ (title
            ++ (pair_lines keys values
                ++ line (get_or keys (length values) (codes "ReportTime")) now))
unfolding card_text
card_text_lem title now keys values h =
    ap (λ t. codes "## " ++ (title ++ t)) (card_lines-last keys values (codes "ReportTime") now h)

-- `PostCardEvent` posts one card, with no more values than keys, whose text is the title, a line for
-- each value under its key, and the time, under `ReportTime` if every key has a value, and otherwise
-- under the first key that has none.
pub post_card_event_lem :
    {B R : Type 0} (web : Web (CardPayload B) R) (url : Text) (ev : CardEvent B) (now : Text)
    → length ev.values ≤ length ev.keys
    → post_card_event web url ev now
      ≡ post_json web url (record {
        msgtype = codes "actionCard";
        action_card = record {
          title = ev.title;
          text =
              codes "## "
              ++ (ev.title
                  ++ (pair_lines ev.keys ev.values
                      ++ line (get_or ev.keys (length ev.values) (codes "ReportTime")) now));
          hide_avatar = 0;
          btns = ev.buttons;
        };
      })
unfolding post_card_event post_ding_card_kv post_ding_card
post_card_event_lem web url ev now h =
    ap
      (λ t. post_json web url (record {
        msgtype = codes "actionCard";
        action_card = record { title = ev.title; text = t; hide_avatar = 0; btns = ev.buttons };
      }))
      (card_text_lem ev.title now ev.keys ev.values h)
