-- ===== src/Text/Keywords.antt =====
-- modules/ingestion/domain/keyword-match.ts. A compiled pattern is the phrase that it looks for:
-- the regular expression is the escaped phrase between two lookarounds.
use feedpulse.Base.{
  ℕ, Bool, true, false, not, ◌&&◌, ◌||◌, Option, none, some, List, [], ◌∷◌, ◌++◌, leb, ◌==◌,
  if◌then◌else◌, length, any,
}
use feedpulse.Text.Normalize.{Unicode, normalize_search_text}

pub record KeywordRule : Type 0 where
  pub include_keywords : List (List ℕ)
  pub exclude_keywords : List (List ℕ)

-- What is left of `s` behind the prefix `phrase`.
unfoldable pub strip_prefix : List ℕ → List ℕ → Option (List ℕ)
strip_prefix [] s = some s
strip_prefix (p ∷ ps) [] = none
strip_prefix (p ∷ ps) (c ∷ cs) = let rest = strip_prefix ps cs in if p == c then rest else none

-- `(?![\p{L}\p{N}])` at the head of what is left.
unfoldable pub starts_word : Unicode → List ℕ → Bool
starts_word u [] = false
starts_word u (c ∷ cs) = u.is_word c

abbrev ends_right : Unicode → Option (List ℕ) → Bool
ends_right u none = false
ends_right u (some rest) = not (starts_word u rest)

-- The pattern matches at this place: `after_word` tells that a letter or digit stands before it.
unfoldable pub matches_here : Unicode → Bool → List ℕ → List ℕ → Bool
unfolding strip_prefix starts_word
matches_here u after_word phrase s = not after_word && ends_right u (strip_prefix phrase s)

-- `pattern.test(haystack)`: some place matches.
unfoldable pub test_from : Unicode → Bool → List ℕ → List ℕ → Bool
unfolding matches_here
test_from u after_word phrase [] = matches_here u after_word phrase []
test_from u after_word phrase (c ∷ cs) =
    matches_here u after_word phrase (c ∷ cs) || test_from u (u.is_word c) phrase cs

-- `phrasePattern` without the memo: no pattern for an empty phrase.
unfoldable pub compile : List ℕ → Option (List ℕ)
compile [] = none
compile (c ∷ cs) = some (c ∷ cs)

unfoldable pub test_pattern : Unicode → List ℕ → Option (List ℕ) → Bool
unfolding test_from
test_pattern u haystack none = false
test_pattern u haystack (some phrase) = test_from u false phrase haystack

unfoldable pub keyword_matches : Unicode → List ℕ → List ℕ → Bool
unfolding test_pattern compile normalize_search_text
keyword_matches u haystack keyword =
    test_pattern u haystack (compile (normalize_search_text u keyword))

unfoldable pub rule_matches_normalized_text : Unicode → List ℕ → KeywordRule → Bool
unfolding keyword_matches any
rule_matches_normalized_text u haystack rule =
    if not (any (keyword_matches u haystack) rule.include_keywords)
    then false
    else not (any (keyword_matches u haystack) rule.exclude_keywords)

unfoldable pub entry_matches_rule : Unicode → List ℕ → KeywordRule → Bool
unfolding rule_matches_normalized_text
entry_matches_rule u text rule = rule_matches_normalized_text u (normalize_search_text u text) rule

-- The memo: `Map<string, RegExp | null>` in the order of insertion.
abbrev pub Memo : Type 0
Memo = List (List ℕ × Option (List ℕ))

abbrev pub max_compiled_phrase_patterns : ℕ
max_compiled_phrase_patterns = 5000

unfoldable pub same_text : List ℕ → List ℕ → Bool
same_text [] [] = true
same_text (c ∷ cs) (d ∷ ds) = (c == d) && same_text cs ds
same_text _ _ = false

unfoldable pub memo_get : List ℕ → Memo → Option (Option (List ℕ))
unfolding same_text
memo_get phrase [] = none
memo_get phrase ((k, v) ∷ memo) =
    let rest = memo_get phrase memo in if same_text k phrase then some v else rest

-- The memo that a miss leaves: emptied first when it is full.
unfoldable pub memo_add : List ℕ → Option (List ℕ) → Memo → Memo
memo_add phrase compiled memo =
    if leb max_compiled_phrase_patterns (length memo)
    then (phrase, compiled) ∷ []
    else memo ++ (phrase, compiled) ∷ []

abbrev looked_up : List ℕ → Memo → Option (Option (List ℕ)) → Memo × Option (List ℕ)
looked_up phrase memo (some cached) = (memo, cached)
looked_up phrase memo none = (memo_add phrase (compile phrase) memo, compile phrase)

-- `phrasePattern`.
unfoldable pub phrase_pattern : Unicode → List ℕ → Memo → Memo × Option (List ℕ)
unfolding memo_get memo_add compile normalize_search_text
phrase_pattern u keyword memo =
    let phrase = normalize_search_text u keyword in looked_up phrase memo (memo_get phrase memo)
