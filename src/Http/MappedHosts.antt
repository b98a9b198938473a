-- ===== src/Http/MappedHosts.antt =====
-- IPv4 addresses that are written as IPv6 ones: the check refuses them like the addresses themselves.
use feedpulse.Base.{
  ℕ, ◌/◌, ◌%◌, ◌<◌, ◌≡◌, refl, ap, ◌∙◌, true, false, not, ◌||◌, some, List, [], ◌∷◌, ◌++◌, arith,
  any,
}
use mathlib.Core.List.{map-append}
use feedpulse.Text.Normalize.{codes}
use feedpulse.Text.Keywords.{strip_prefix}
use feedpulse.Text.Characters.{
  has_char, split_on, is_hex_digit, hex_value, parse_hex_from, lower_ascii, lower_char,
}
use feedpulse.Http.UrlSafety.{
  is_blocked_hostname, strip_last, strip_open_bracket, is_hex_group, dotted_quad, unmap_groups,
  unmap_ipv4, normalize_hostname,
}
use feedpulse.Http.Octets.{split_on-at, split_on-end}
use feedpulse.Http.BlockedHosts.{is_internal_address, blocked_ipv4_iff}

abbrev IsHex : List ℕ → Type 0
IsHex cs = any (λ c. not (is_hex_digit c)) cs ≡ false

group-IsHex : (g : List ℕ) → is_hex_group g ≡ true → IsHex g
group-IsHex g h = ground arith

hex-lower : (cs : List ℕ) → IsHex cs → lower_ascii cs ≡ cs
unfolding any
hex-lower [] h = refl
hex-lower (c ∷ cs) h =
    let same : lower_char c ≡ c = ground arith in rw same (ap (◌∷◌ c) (hex-lower cs (ground arith)))

hex-no_dot : (cs : List ℕ) → IsHex cs → has_char b'.' cs ≡ false
unfolding any has_char
hex-no_dot [] h = refl
hex-no_dot (c ∷ cs) h = ground (arith, hex-no_dot cs)

hex-no_colon : (cs : List ℕ) → IsHex cs → has_char b':' cs ≡ false
unfolding any has_char
hex-no_colon [] h = refl
hex-no_colon (c ∷ cs) h = ground (arith, hex-no_colon cs)

has_char-append :
    (c : ℕ) (xs ys : List ℕ) → has_char c (xs ++ ys) ≡ (has_char c xs || has_char c ys)
unfolding has_char
has_char-append c [] ys = refl
has_char-append c (x ∷ xs) ys = ground (arith, has_char-append c xs ys)

hex_value-bound : (c : ℕ) → is_hex_digit c ≡ true → hex_value c < 16
hex_value-bound c h = ground arith

group-bound : (g : List ℕ) → is_hex_group g ≡ true → parse_hex_from 0 g < 65536
unfolding any parse_hex_from
group-bound [] h = ground arith
group-bound (a ∷ []) h = ground (arith, hex_value-bound a)
group-bound (a ∷ b ∷ []) h = ground (arith, hex_value-bound a, hex_value-bound b)
group-bound (a ∷ b ∷ c ∷ []) h =
    ground (arith, hex_value-bound a, hex_value-bound b, hex_value-bound c)
group-bound (a ∷ b ∷ c ∷ d ∷ []) h =
    ground (arith, hex_value-bound a, hex_value-bound b, hex_value-bound c, hex_value-bound d)
group-bound (a ∷ b ∷ c ∷ d ∷ e ∷ g) h = absurd (ground arith)

strip_last-snoc : (c : ℕ) (cs : List ℕ) → strip_last c (cs ++ c ∷ []) ≡ cs
unfolding strip_last
strip_last-snoc c [] = ground arith
strip_last-snoc c (d ∷ []) = ground arith
strip_last-snoc c (d ∷ e ∷ cs) = ap (◌∷◌ d) (strip_last-snoc c (e ∷ cs))

-- `[::ffff:g:h]`
abbrev pub mapped_host : List ℕ → List ℕ → List ℕ
mapped_host g h = codes "[::ffff:" ++ ((g ++ b':' ∷ h) ++ b']' ∷ [])

groups_text-no_dot : (g h : List ℕ) → IsHex g → IsHex h → has_char b'.' (g ++ b':' ∷ h) ≡ false
unfolding has_char
groups_text-no_dot g h hg hh =
    has_char-append b'.' g (b':' ∷ h) ∙ rw (hex-no_dot g hg, hex-no_dot h hh) refl

groups_text-lower : (g h : List ℕ) → IsHex g → IsHex h → lower_ascii (g ++ b':' ∷ h) ≡ g ++ b':' ∷ h
groups_text-lower g h hg hh =
    map-append lower_char g (b':' ∷ h) ∙ rw (hex-lower g hg, hex-lower h hh) refl

groups_text-split : (g h : List ℕ) → IsHex g → IsHex h → split_on b':' (g ++ b':' ∷ h) ≡ g ∷ h ∷ []
groups_text-split g h hg hh =
    split_on-at b':' g h (hex-no_colon g hg) ∙ ap (◌∷◌ g) (split_on-end b':' h (hex-no_colon h hh))

unmap-groups :
    (host g h : List ℕ)
    → is_hex_group g ≡ true
    → is_hex_group h ≡ true
    → unmap_ipv4 host (some (g ++ b':' ∷ h)) ≡ dotted_quad (parse_hex_from 0 g) (parse_hex_from 0 h)
unfolding unmap_ipv4 unmap_groups
unmap-groups host [] h hg hh = cc
unmap-groups host (c ∷ g) h hg hh =
    let left = group-IsHex (c ∷ g) hg in
    let right = group-IsHex h hh in
    rw (groups_text-no_dot (c ∷ g) h left right, groups_text-split (c ∷ g) h left right, hg, hh)
      refl

-- Behind the brackets and in lower case.
unwrapped :
    (g h : List ℕ)
    → IsHex g
    → IsHex h
    → strip_last b']' (strip_open_bracket (lower_ascii (mapped_host g h)))
      ≡ codes "::ffff:" ++ (g ++ b':' ∷ h)
unwrapped g h hg hh =
    ap (λ x. strip_last b']' (codes "::ffff:" ++ x))
      (map-append lower_char (g ++ b':' ∷ h) (b']' ∷ [])
        ∙ ap (λ x. x ++ b']' ∷ []) (groups_text-lower g h hg hh))
    ∙ strip_last-snoc b']' (codes "::ffff:" ++ (g ++ b':' ∷ h))

mapped-normalize :
    (g h : List ℕ)
    → is_hex_group g ≡ true
    → is_hex_group h ≡ true
    → normalize_hostname (mapped_host g h) ≡ dotted_quad (parse_hex_from 0 g) (parse_hex_from 0 h)
unfolding normalize_hostname strip_prefix
mapped-normalize g h hg hh =
    ap (λ x. unmap_ipv4 x (strip_prefix (codes "::ffff:") x))
      (unwrapped g h (group-IsHex g hg) (group-IsHex h hh))
    ∙ unmap-groups (codes "::ffff:" ++ (g ++ b':' ∷ h)) g h hg hh

-- A host `[::ffff:g:h]`, whose two groups have one to four hexadecimal digits, is refused exactly if
-- the IPv4 address with these two groups as its halves lies in one of the internal ranges.
pub blocked_mapped_iff :
    (g h : List ℕ)
    → is_hex_group g ≡ true
    → is_hex_group h ≡ true
    → is_blocked_hostname (normalize_hostname (mapped_host g h))
      ≡ is_internal_address (parse_hex_from 0 g / 256) (parse_hex_from 0 g % 256)
unfolding dotted_quad
blocked_mapped_iff g h hg hh =
    let high = group-bound g hg in
    let low = group-bound h hh in
    ap is_blocked_hostname (mapped-normalize g h hg hh)
    ∙ blocked_ipv4_iff (parse_hex_from 0 g / 256) (parse_hex_from 0 g % 256)
        (parse_hex_from 0 h / 256) (parse_hex_from 0 h % 256) (omega arith) (omega arith)
        (omega arith) (omega arith)
