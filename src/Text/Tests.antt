-- ===== src/Text/Tests.antt =====
-- Runs of the keyword matcher, and an application of each theorem on them.
use feedpulse.Base.{
  ℕ, ◌+◌, ◌≡◌, refl, ◌≢◌, ◌↔◌, true, false, ◌&&◌, [], ◌∷◌, leb, if◌then◌else◌, map, arith, select,
}
use feedpulse.Text.Normalize.{Unicode, codes, normalize_search_text}
use feedpulse.Text.Keywords.{
  KeywordRule, keyword_matches, entry_matches_rule, Memo, compile, phrase_pattern,
}
use feedpulse.Text.Occurrence.{OccursFrom, keyword_matches_iff}
use feedpulse.Text.PatternCache.{IsMemo, phrase_pattern_lem}

abbrev lower_ascii : ℕ → ℕ
lower_ascii c = if leb 65 c && leb c 90 then c + 32 else c

-- The tables cut down to ASCII letters.
abbrev ascii : Unicode
ascii = record {
  nfd = λ s. s;
  lower = λ s. map lower_ascii s;
  is_word = λ c. leb 97 c && leb c 122;
}

abbrev rule : KeywordRule
rule = record { include_keywords = codes "AI" ∷ []; exclude_keywords = codes "said" ∷ [] }

whole_words :
    (entry_matches_rule ascii (codes "New  AI: models") rule ≡ true)
    × (entry_matches_rule ascii (codes "A chair") rule ≡ false)
    × (entry_matches_rule ascii (codes "AI, he said") rule ≡ false)
    × (keyword_matches ascii (codes "aid ai") (codes " ai ") ≡ true)
unfolding entry_matches_rule select
whole_words = (refl, refl, refl, refl)

keyword_matches_iff_example : (keyword_matches ascii (codes "the ai") (codes "AI") ≡ true) ↔ (
    (normalize_search_text ascii (codes "AI") ≢ [])
    × OccursFrom ascii false (normalize_search_text ascii (codes "AI")) (codes "the ai"))
keyword_matches_iff_example = keyword_matches_iff ascii (codes "the ai") (codes "AI")

abbrev memo : Memo
memo = (codes "ai", compile (codes "ai")) ∷ []

memo-IsMemo : IsMemo memo
memo-IsMemo = record { compiled = (refl, tt); bounded = omega arith }

phrase_pattern_lem_example :
    ((phrase_pattern ascii (codes "AI") memo).1
      ≡ compile (normalize_search_text ascii (codes "AI")))
    × IsMemo (phrase_pattern ascii (codes "AI") memo).0
phrase_pattern_lem_example = phrase_pattern_lem ascii (codes "AI") memo memo-IsMemo
