-- ===== src/Question/Assent.antt =====
-- packages/core/src/escalation/yes-no-assent.ts: an operator's answer as assent or as the choice of
-- an option. `nfkc`, `trim`, `lower` and `strip` are JavaScript's `normalize('NFKC')`, `trim`,
-- `toLowerCase` and the replacement of spaces, punctuation and symbols by nothing, which go by the
-- Unicode tables. An alternative of a regular expression is an entry of a list.
pub mod Laws
use Prim.Native.String.{String}
use Prim.Native.String as Text
use Prim.Native.Char.{Char, code}
use text.Mathlib.Text.{◌==◌ as str_eq, starts_with, find?}
use agents_ensemble.Base.{
  ℕ, zero, suc, ◌+◌, ◌-◌, ◌*◌, Bool, true, false, ◌&&◌, ◌||◌, Option, none, some, List, [], ◌∷◌,
  any, filter, is_some, leb, if◌then◌else◌,
}

pub data YesNoAssent : Type 0 where
  yes no unclear : YesNoAssent

pub record ChoiceOption : Type 0 where
  pub id : String
  pub label : String

abbrev pub affirmative_answers : List String
affirmative_answers =
    "y" ∷ "yes" ∷ "yeah" ∷ "yep" ∷ "yup" ∷ "sure" ∷ "certainly" ∷ "absolutely" ∷ "correct" ∷ "true"
    ∷ "1" ∷ "ok" ∷ "okay" ∷ "yesplease" ∷ "okplease" ∷ "okayplease" ∷ "はい" ∷ "ええ" ∷ "うん" ∷ "そう"
    ∷ "そうです" ∷ "いいです" ∷ "いいですよ" ∷ "いいよ" ∷ "大丈夫" ∷ "大丈夫です" ∷ "問題ない" ∷ "問題ありません" ∷ "了解" ∷ "了解です"
    ∷ "了解しました" ∷ "承知" ∷ "承知しました" ∷ "お願いします" ∷ "許可" ∷ "許可します" ∷ "許可して" ∷ "進めて" ∷ "進めてください" ∷ "賛成"
    ∷ "賛成です" ∷ "可" ∷ "可能" ∷ "承認" ∷ "承認します" ∷ "オーケー" ∷ []

abbrev pub negative_answers : List String
negative_answers =
    "n" ∷ "no" ∷ "nope" ∷ "nah" ∷ "negative" ∷ "false" ∷ "0" ∷ "cancel" ∷ "deny" ∷ "dont"
    ∷ "notokay" ∷ "notok" ∷ "nothanks" ∷ "いいえ" ∷ "いや" ∷ "いやです" ∷ "だめ" ∷ "駄目" ∷ "ダメ" ∷ "だめです"
    ∷ "許可しない" ∷ "許可できない" ∷ "許可しません" ∷ "拒否" ∷ "拒否します" ∷ "不可" ∷ "やめて" ∷ "やめます" ∷ "中止" ∷ "中止します" ∷ []

-- The expressions, in the order of the code.
abbrev pub refusals : List String
refusals = "許可しません" ∷ "許可できません" ∷ "拒否します" ∷ "やめます" ∷ "中止します" ∷ []

abbrev pub refusal_starts : List String
refusal_starts =
    "いいえ" ∷ "いや" ∷ "だめ" ∷ "駄目" ∷ "ダメ" ∷ "許可しない" ∷ "許可しません" ∷ "許可できない" ∷ "拒否" ∷ "不可" ∷ "やめて" ∷ "中止"
    ∷ []

abbrev pub assents : List String
assents = "はい" ∷ "ええ" ∷ "うん" ∷ []

abbrev pub assent_endings : List String
assent_endings = "です" ∷ "お願いします" ∷ "でお願いします" ∷ "進めてください" ∷ "許可します" ∷ []

abbrev pub english_assents : List String
english_assents =
    "yes" ∷ "yeah" ∷ "yep" ∷ "yup" ∷ "sure" ∷ "certainly" ∷ "absolutely" ∷ "correct" ∷ "true" ∷ "ok"
    ∷ "okay" ∷ []

abbrev pub english_endings : List String
english_endings = "please" ∷ "thanks" ∷ "です" ∷ "ですよ" ∷ "だよ" ∷ "お願いします" ∷ []

abbrev pub english_refusals : List String
english_refusals =
    "no" ∷ "nope" ∷ "nah" ∷ "negative" ∷ "false" ∷ "cancel" ∷ "deny" ∷ "dont" ∷ "notokay" ∷ "notok"
    ∷ "nothanks" ∷ []

unfoldable pub is_in : List String → String → Bool
is_in words text = any (λ word. str_eq word text) words

unfoldable pub contains_any : List String → String → Bool
contains_any words text = any (λ word. is_some (find? text word)) words

unfoldable pub starts_with_any : List String → String → Bool
starts_with_any words text = any (λ word. starts_with text word) words

-- A word of the first list and then one of the second.
unfoldable pub is_pair : List String → List String → String → Bool
is_pair starts endings text =
    any (λ start. any (λ ending. str_eq (Text.◌++◌ start ending) text) endings) starts

unfoldable pub assent_of : String → YesNoAssent
assent_of text =
    if is_in negative_answers text
    then no
    else if contains_any refusals text
    then no
    else if is_in affirmative_answers text
    then yes
    else if starts_with_any refusal_starts text
    then no
    else if is_in assents text || is_pair assents assent_endings text
    then yes
    else if is_pair english_assents english_endings text
    then yes
    else if is_in english_refusals text
    then no
    else unclear

-- `/^[1-9]\d*$/` and `Number(…)`
unfoldable pub is_digit : Char → Bool
is_digit c = leb 48 (code c) && leb (code c) 57

unfoldable pub digits_value : ℕ → String → Option ℕ
digits_value n Text.[] = some n
digits_value n (Text.◌∷◌ c s) =
    let rest = digits_value (n * 10 + (code c - 48)) s in if is_digit c then rest else none

unfoldable pub position_of : String → Option ℕ
position_of Text.[] = none
position_of (Text.◌∷◌ c s) =
    let rest = digits_value (code c - 48) s in
    if leb 49 (code c) && leb (code c) 57 then rest else none

-- `choices[index]?.id`
unfoldable pub id_at : List ChoiceOption → ℕ → Option String
id_at [] index = none
id_at (choice ∷ choices) zero = some choice.id
id_at (choice ∷ choices) (suc index) = id_at choices index

id_at_position : List ChoiceOption → Option ℕ → Option String
unfolding id_at
id_at_position choices none = none
id_at_position choices (some position) = id_at choices (position - 1)

-- `if (….length === 1) return …[0]?.id; if (….length > 1) return undefined;` and the code behind it.
unfoldable pub only_id : List ChoiceOption → Option String → Option String
only_id [] rest = rest
only_id (choice ∷ []) rest = some choice.id
only_id (_ ∷ _ ∷ _) rest = none

module _ (nfkc trim lower strip : String → String) where
  unfoldable pub normalize_answer : String → String
  normalize_answer answer = strip (lower (trim (nfkc answer)))

  unfoldable pub parse_yes_no_assent : String → YesNoAssent
  unfolding assent_of normalize_answer
  parse_yes_no_assent answer = assent_of (normalize_answer answer)

  unfoldable pub parse_choice_selection : String → List ChoiceOption → Option String
  unfolding only_id id_at_position position_of normalize_answer
  parse_choice_selection answer choices =
      let normalized = normalize_answer answer in
      if str_eq normalized ""
      then none
      else only_id (filter (λ choice. str_eq (normalize_answer choice.id) normalized) choices) (
          only_id (filter (λ choice. str_eq (normalize_answer choice.label) normalized) choices)
            (id_at_position choices (position_of normalized)))
