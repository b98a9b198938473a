-- ===== src/Text/PatternCache.antt =====
-- The memo of compiled phrases changes no answer and stays within its bound.
use feedpulse.Base.{
  ℕ, ◌≤◌, ◌≡◌, refl, ap, inl, inr, true, Option, some, List, [], ◌∷◌, leb, Bool-cases, Option-cases,
  length, length-append, All, All-append, arith,
}
use feedpulse.Text.Normalize.{Unicode, normalize_search_text}
use feedpulse.Text.Keywords.{
  Memo, max_compiled_phrase_patterns, same_text, memo_get, memo_add, phrase_pattern, compile,
}

-- Every entry holds the pattern of its phrase, and there are at most 5000.
pub record IsMemo (memo : Memo) : Type 0 where
  pub compiled : All (λ e. e.1 ≡ compile e.0) memo
  pub bounded : length memo ≤ max_compiled_phrase_patterns

same_text-eq : (a b : List ℕ) → same_text a b ≡ true → a ≡ b
unfolding same_text
same_text-eq [] [] h = refl
same_text-eq [] (d ∷ b) h = cc
same_text-eq (c ∷ a) [] h = cc
same_text-eq (c ∷ a) (d ∷ b) h = ground (arith, same_text-eq a b)

memo_get-compile :
    (phrase : List ℕ) (memo : Memo) {v : Option (List ℕ)}
    → All (λ e. e.1 ≡ compile e.0) memo
    → memo_get phrase memo ≡ some v
    → v ≡ compile phrase
unfolding memo_get
memo_get-compile phrase [] h e = cc
memo_get-compile phrase ((k, w) ∷ memo) h e = elim (Bool-cases (same_text k phrase)) [
  | inl s ↦ let same = same_text-eq k phrase s in ground (arith, h.0, ap compile same)
  | inr s ↦ memo_get-compile phrase memo h.1 (ground arith)
]

memo_add-IsMemo :
    (phrase : List ℕ) (memo : Memo) → IsMemo memo → IsMemo (memo_add phrase (compile phrase) memo)
unfolding memo_add
memo_add-IsMemo phrase memo v = elim (Bool-cases (leb max_compiled_phrase_patterns (length memo))) [
  | inl e ↦ rw e (record { compiled = (refl, tt); bounded = omega arith })
  | inr e ↦ rw e (record {
    compiled = All-append _ memo _ v.compiled (refl, tt);
    bounded = ground (arith, length-append memo ((phrase, compile phrase) ∷ []));
  })
]

-- From a memo that is right, a lookup gives the pattern that compiling anew would give, and leaves a
-- memo that is right and within the bound, whether it hits, misses, or empties a full memo.
pub phrase_pattern_lem :
    (u : Unicode) (keyword : List ℕ) (memo : Memo)
    → IsMemo memo
    → ((phrase_pattern u keyword memo).1 ≡ compile (normalize_search_text u keyword))
      × IsMemo (phrase_pattern u keyword memo).0
unfolding phrase_pattern
phrase_pattern_lem u keyword memo v =
    elim (Option-cases (memo_get (normalize_search_text u keyword) memo)) [
      | inl e ↦ rw e (refl, memo_add-IsMemo (normalize_search_text u keyword) memo v)
      | inr (p, e) ↦ rw e (memo_get-compile (normalize_search_text u keyword) memo v.compiled e, v)
    ]
