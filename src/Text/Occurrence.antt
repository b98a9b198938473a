-- ===== src/Text/Occurrence.antt =====
-- When a keyword matches: as a whole word or expression, and nowhere inside a longer word.
use feedpulse.Base.{
  ℕ, ◌≡◌, refl, ap, ◌≢◌, ◌↔◌, inl, inr, Bool, true, false, some, List, [], ◌∷◌, ◌++◌, Bool-cases,
  Option-cases, any-mem, any_of_mem, none_of_not_any, not_any_of_none, Memᴰ, arith,
}
use feedpulse.Text.Normalize.{Unicode, normalize_search_text}
use feedpulse.Text.Keywords.{
  strip_prefix, starts_word, matches_here, test_from, compile, test_pattern, keyword_matches,
  KeywordRule, rule_matches_normalized_text,
}

-- The last character of a text is a letter or digit; `before` speaks for the empty text.
abbrev pub ends_word : Unicode → Bool → List ℕ → Bool
ends_word u before [] = before
ends_word u before (c ∷ cs) = ends_word u (u.is_word c) cs

-- The phrase stands in the text with no letter or digit on either side.
abbrev pub OccursFrom : Unicode → Bool → List ℕ → List ℕ → Type 0
OccursFrom u before phrase text =
    (pre post : List ℕ) × (text ≡ pre ++ phrase ++ post)
    × (ends_word u before pre ≡ false)
    × (starts_word u post ≡ false)

strip_prefix-append : (p post : List ℕ) → strip_prefix p (p ++ post) ≡ some post
unfolding strip_prefix
strip_prefix-append [] post = refl
strip_prefix-append (c ∷ p) post = ground (arith, strip_prefix-append p post)

strip_prefix-eq : (p s post : List ℕ) → strip_prefix p s ≡ some post → s ≡ p ++ post
unfolding strip_prefix
strip_prefix-eq [] s post h = ground arith
strip_prefix-eq (c ∷ p) [] post h = cc
strip_prefix-eq (c ∷ p) (d ∷ s) post h = ground (arith, strip_prefix-eq p s post)

here-Occurs :
    (u : Unicode) (before : Bool) (phrase s : List ℕ)
    → matches_here u before phrase s ≡ true
    → OccursFrom u before phrase s
unfolding matches_here
here-Occurs u before phrase s h = elim (Option-cases (strip_prefix phrase s)) [
  | inl e ↦ absurd (ground arith)
  | inr (post, e) ↦ ([], post, strip_prefix-eq phrase s post e, ground arith, ground arith)
]

test_from-Occurs :
    (u : Unicode) (before : Bool) (phrase s : List ℕ)
    → test_from u before phrase s ≡ true
    → OccursFrom u before phrase s
unfolding test_from
test_from-Occurs u before phrase [] h = here-Occurs u before phrase [] h
test_from-Occurs u before phrase (c ∷ cs) h =
    elim (Bool-cases (matches_here u before phrase (c ∷ cs))) [
      | inl e ↦ here-Occurs u before phrase (c ∷ cs) e
      | inr e ↦
          let (pre, post, text, left, right) =
            test_from-Occurs u (u.is_word c) phrase cs (ground arith) in
          (c ∷ pre, post, ap (◌∷◌ c) text, left, right)
    ]

here_of_split :
    (u : Unicode) (phrase s post : List ℕ)
    → s ≡ phrase ++ post
    → starts_word u post ≡ false
    → matches_here u false phrase s ≡ true
unfolding matches_here
here_of_split u phrase s post e r = rw (e, strip_prefix-append phrase post, r) refl

test_from_of_here :
    (u : Unicode) (before : Bool) (phrase s : List ℕ)
    → matches_here u before phrase s ≡ true
    → test_from u before phrase s ≡ true
unfolding test_from
test_from_of_here u before phrase [] h = h
test_from_of_here u before phrase (c ∷ cs) h = rw h refl

test_from_of_Occurs :
    (u : Unicode) (before : Bool) (phrase s pre post : List ℕ)
    → s ≡ pre ++ phrase ++ post
    → ends_word u before pre ≡ false
    → starts_word u post ≡ false
    → test_from u before phrase s ≡ true
unfolding test_from
test_from_of_Occurs u before phrase s [] post e l r =
    rw l (test_from_of_here u false phrase s (here_of_split u phrase s post e r))
test_from_of_Occurs u before phrase [] (c ∷ pre) post e l r = cc
test_from_of_Occurs u before phrase (d ∷ s) (c ∷ pre) post e l r =
    ground (arith, test_from_of_Occurs u (u.is_word c) phrase s pre post)

test_pattern_iff :
    (u : Unicode) (haystack phrase : List ℕ)
    → (test_pattern u haystack (compile phrase) ≡ true)
      ↔ ((phrase ≢ []) × OccursFrom u false phrase haystack)
unfolding test_pattern compile
test_pattern_iff u haystack [] = (λ h. absurd (cc), λ h. absurd (h.0 refl))
test_pattern_iff u haystack (c ∷ cs) = (
  λ h. (λ e. cc, test_from-Occurs u false (c ∷ cs) haystack h),
  λ h.
      let (pre, post, text, left, right) = h.1 in
      test_from_of_Occurs u false (c ∷ cs) haystack pre post text left right,
)

-- A keyword matches exactly when its normalised form is not empty and stands in the haystack with no
-- letter or digit directly before or after it.
pub keyword_matches_iff :
    (u : Unicode) (haystack keyword : List ℕ)
    → (keyword_matches u haystack keyword ≡ true) ↔ (
        (normalize_search_text u keyword ≢ [])
        × OccursFrom u false (normalize_search_text u keyword) haystack)
unfolding keyword_matches
keyword_matches_iff u haystack keyword =
    test_pattern_iff u haystack (normalize_search_text u keyword)

-- A rule matches exactly when one of its include keywords matches and none of its exclude keywords
-- does; in particular a rule with no include keyword never matches.
rule_matches_iff :
    (u : Unicode) (haystack : List ℕ) (rule : KeywordRule)
    → (rule_matches_normalized_text u haystack rule ≡ true) ↔ (
        ((k : List ℕ) × Memᴰ k rule.include_keywords × (keyword_matches u haystack k ≡ true))
        × ((k : List ℕ) → Memᴰ k rule.exclude_keywords → keyword_matches u haystack k ≡ false))
unfolding rule_matches_normalized_text
rule_matches_iff u haystack rule = (
  λ h. (
    any-mem (keyword_matches u haystack) rule.include_keywords (ground arith),
    none_of_not_any (keyword_matches u haystack) rule.exclude_keywords (ground arith),
  ),
  λ h.
      rw
        (
          any_of_mem (keyword_matches u haystack) rule.include_keywords h.0.1 h.0.2,
          not_any_of_none (keyword_matches u haystack) rule.exclude_keywords h.1,
        )
        refl,
)
