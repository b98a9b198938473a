-- ===== src/Http/BlockedHosts.antt =====
-- Which hosts the check of outbound urls refuses, against the address ranges that it means.
use feedpulse.Base.{
  ℕ, ◌<◌, ◌≡◌, refl, sym, ap, ◌∙◌, Bool, true, false, ◌&&◌, ◌||◌, List, [], ◌∷◌, ◌++◌, leb, ◌==◌,
  arith, any,
}
use mathlib.Core.List.{reverse-append, append_assoc}
use feedpulse.Text.Normalize.{codes}
use feedpulse.Text.Keywords.{strip_prefix}
use feedpulse.Text.Characters.{has_prefix, has_suffix, split_on, is_digit, print_byte, lower_char}
use feedpulse.Http.UrlSafety.{
  private_172, this_network, matches_blocked_host, is_blocked_hostname, strip_last,
  blocked_host_suffixes,
}
use feedpulse.Http.Octets.{print_byte-head, print_byte-last, has_char-dot}
use feedpulse.Http.Quads.{quad, private_172-quad, this_network-quad, prefixes-quad}

-- 0.0.0.0/8, 10.0.0.0/8, 127.0.0.0/8, 169.254.0.0/16, 172.16.0.0/12 and 192.168.0.0/16.
abbrev pub is_internal_address : ℕ → ℕ → Bool
is_internal_address a b =
    (a == 0)
    || (a == 10)
    || (a == 127)
    || ((a == 169) && (b == 254))
    || ((a == 172) && leb 16 b && leb b 31)
    || ((a == 192) && (b == 168))

-- The patterns that an IPv4 address can match.
abbrev matches_ipv4 : List ℕ → Bool
matches_ipv4 h =
    has_prefix h (codes "127.")
    || has_prefix h (codes "169.254.")
    || has_prefix h (codes "10.")
    || has_prefix h (codes "192.168.")
    || private_172 (strip_prefix (codes "172.") h)
    || this_network (split_on b'.' h)

or_false : (b : Bool) → (b || false) ≡ b
or_false true = refl
or_false false = refl

matches-digit :
    (c : ℕ) (cs : List ℕ)
    → is_digit c ≡ true
    → matches_blocked_host (c ∷ cs) ≡ matches_ipv4 (c ∷ cs)
unfolding matches_blocked_host
matches-digit c cs h =
    let same : lower_char c ≡ c = ground arith in
    let not_l : (c == b'l') ≡ false = ground arith in
    let not_f : (c == b'f') ≡ false = ground arith in
    let f_not : (b'f' == c) ≡ false = ground arith in
    let not_colon : (c == b':') ≡ false = ground arith in
    rw (same, not_l, not_f, f_not, not_colon) (simp or_false)

strip_last_other :
    (cs : List ℕ) (c : ℕ) → is_digit c ≡ true → strip_last b'.' (cs ++ c ∷ []) ≡ cs ++ c ∷ []
unfolding strip_last
strip_last_other [] c h = ground arith
strip_last_other (d ∷ []) c h = ground arith
strip_last_other (d ∷ e ∷ cs) c h = ap (◌∷◌ d) (strip_last_other (e ∷ cs) c h)

no_suffix :
    (cs : List ℕ) (c : ℕ)
    → is_digit c ≡ true
    → any (has_suffix (cs ++ c ∷ [])) blocked_host_suffixes ≡ false
unfolding any has_suffix
no_suffix cs c h = rw (reverse-append cs (c ∷ [])) (ground arith)

ipv4-quad :
    (a b c d : ℕ)
    → a < 256
    → b < 256
    → c < 256
    → d < 256
    → matches_ipv4 (quad a b c d) ≡ is_internal_address a b
ipv4-quad a b c d ha hb hc hd =
    let (p127, p169, p10, p192) = prefixes-quad a b c d ha hb in
    rw
      (
        p127,
        p169,
        p10,
        p192,
        private_172-quad a b c d ha hb hc,
        this_network-quad a b c d ha hb hc hd,
      )
      (ground arith)

matches-quad :
    (a b c d : ℕ)
    → a < 256
    → b < 256
    → c < 256
    → d < 256
    → matches_blocked_host (quad a b c d) ≡ is_internal_address a b
matches-quad a b c d ha hb hc hd =
    let (f, cs, e, digit) = print_byte-head a ha in
    let text =
      ap (λ x. x ++ b'.' ∷ (print_byte b ++ b'.' ∷ (print_byte c ++ b'.' ∷ print_byte d))) e in
    ap matches_blocked_host text
    ∙ matches-digit f _ digit
    ∙ ap (λ h. matches_ipv4 h) (sym text)
    ∙ ipv4-quad a b c d ha hb hc hd

-- The last digit ends the host: no trailing dot, no reserved suffix.
quad-last :
    (a b c d : ℕ)
    → d < 256
    → (cs : List ℕ) × (e : ℕ) × (quad a b c d ≡ cs ++ e ∷ []) × (is_digit e ≡ true)
quad-last a b c d hd =
    let (cs, e, text, digit) = print_byte-last d hd in
    let before = print_byte c ++ b'.' ∷ cs in
    (print_byte a ++ b'.' ∷ (print_byte b ++ b'.' ∷ before), e, rw text (simp append_assoc), digit)

-- An IPv4 address is refused exactly if it lies in one of the internal ranges.
pub blocked_ipv4_iff :
    (a b c d : ℕ)
    → a < 256
    → b < 256
    → c < 256
    → d < 256
    → is_blocked_hostname (quad a b c d) ≡ is_internal_address a b
unfolding is_blocked_hostname
blocked_ipv4_iff a b c d ha hb hc hd =
    let (cs, e, text, digit) = quad-last a b c d hd in
    let kept : strip_last b'.' (quad a b c d) ≡ quad a b c d =
      ap (strip_last b'.') text ∙ strip_last_other cs e digit ∙ sym text in
    let no_end : any (has_suffix (quad a b c d)) blocked_host_suffixes ≡ false =
      ap (λ h. any (has_suffix h) blocked_host_suffixes) text ∙ no_suffix cs e digit in
    rw
      (
        kept,
        matches-quad a b c d ha hb hc hd,
        no_end,
        has_char-dot (print_byte a) (print_byte b ++ b'.' ∷ (print_byte c ++ b'.' ∷ print_byte d)),
      )
      (simp or_false)
