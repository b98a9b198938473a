-- ===== src/Text/Normalize.antt =====
-- `normalizeSearchText` of shared/text/normalize-search-text.ts. The tables of Unicode are a
-- parameter: canonical decomposition, lower case, and the classes L and N.
use feedpulse.Base.{
  ℕ, Bool, false, not, ◌&&◌, ◌||◌, List, [], ◌∷◌, reverse, leb, ◌==◌, if◌then◌else◌, select, String,
}
use Prim.Native.Char.{code}

pub record Unicode : Type 0 where
  pub nfd : List ℕ → List ℕ
  pub lower : List ℕ → List ℕ
  -- `[\p{L}\p{N}]`
  pub is_word : ℕ → Bool

-- A text literal as code points. `String` has its own constructors.
abbrev pub codes : String → List ℕ
codes String.[] = []
codes (String.◌∷◌ c s) = code c ∷ codes s

-- `\s`, and what `trim` removes.
unfoldable pub is_space : ℕ → Bool
is_space c =
    (leb 9 c && leb c 13)
    || (c == 0x20)
    || (c == 0xa0)
    || (c == 0x1680)
    || (leb 0x2000 c && leb c 0x200a)
    || (c == 0x2028)
    || (c == 0x2029)
    || (c == 0x202f)
    || (c == 0x205f)
    || (c == 0x3000)
    || (c == 0xfeff)

-- `[\u0300-\u036f]`
unfoldable pub is_combining_mark : ℕ → Bool
is_combining_mark c = leb 0x300 c && leb c 0x36f

-- `.replace(/\s+/gu, ' ')`: the flag tells that the character before was a space.
unfoldable pub collapse_from : Bool → List ℕ → List ℕ
unfolding is_space
collapse_from after_space [] = []
collapse_from after_space (c ∷ cs) =
    let rest = collapse_from (is_space c) cs in
    if is_space c then if after_space then rest else 0x20 ∷ rest else c ∷ rest

unfoldable pub trim_start : List ℕ → List ℕ
unfolding is_space
trim_start [] = []
trim_start (c ∷ cs) = let rest = trim_start cs in if is_space c then rest else c ∷ cs

unfoldable pub trim : List ℕ → List ℕ
unfolding trim_start
trim cs = reverse (trim_start (reverse (trim_start cs)))

unfoldable pub normalize_search_text : Unicode → List ℕ → List ℕ
unfolding is_combining_mark collapse_from trim
normalize_search_text u value =
    trim (collapse_from false (u.lower (select (λ c. not (is_combining_mark c)) (u.nfd value))))
