-- ===== src/Http/Quads.antt =====
-- The patterns of the check of outbound urls on a dotted IPv4 address.
use feedpulse.Base.{
  ℕ, ◌<◌, ◌≡◌, refl, ap, ◌∙◌, Bool, true, false, ◌&&◌, none, some, List, [], ◌∷◌, ◌++◌, leb, ◌==◌,
  if◌then◌else◌, Bool-cases, inl, inr, arith, any,
}
use feedpulse.Text.Normalize.{codes}
use feedpulse.Text.Keywords.{strip_prefix}
use feedpulse.Text.Characters.{same_text, has_prefix, has_char, split_on, print_byte}
use feedpulse.Http.UrlSafety.{is_octet_text, private_172, this_network}
use feedpulse.Http.Octets.{
  print_byte-NoDot, print_byte-IsOctet, print_byte-head, has_prefix-dot, strip_prefix-dot,
  split_on-at, split_on-end, private_172_lem, same_text-print_byte,
}

-- The text of an IPv4 address.
abbrev pub quad : ℕ → ℕ → ℕ → ℕ → List ℕ
quad a b c d = print_byte a ++ b'.' ∷ (print_byte b ++ b'.' ∷ (print_byte c ++ b'.' ∷ print_byte d))

and_true : (b : Bool) → (b && true) ≡ b
and_true true = refl
and_true false = refl

-- A pattern of one octet, and one of two.
prefix_one :
    (a m : ℕ) (rest : List ℕ)
    → a < 256
    → m < 256
    → has_prefix (print_byte a ++ b'.' ∷ rest) (print_byte m ++ b'.' ∷ []) ≡ (a == m)
prefix_one a m rest h k =
    has_prefix-dot (print_byte a) rest (print_byte m) [] (print_byte-NoDot a h)
      (print_byte-NoDot m k)
    ∙ rw (same_text-print_byte a m h k) (unfold has_prefix in simp and_true)

prefix_two :
    (a b m k : ℕ) (rest : List ℕ)
    → a < 256
    → b < 256
    → m < 256
    → k < 256
    → has_prefix
        (print_byte a ++ b'.' ∷ (print_byte b ++ b'.' ∷ rest))
        (print_byte m ++ b'.' ∷ (print_byte k ++ b'.' ∷ []))
      ≡ ((a == m) && (b == k))
prefix_two a b m k rest ha hb hm hk =
    has_prefix-dot (print_byte a) (print_byte b ++ b'.' ∷ rest) (print_byte m)
      (print_byte k ++ b'.' ∷ []) (print_byte-NoDot a ha) (print_byte-NoDot m hm)
    ∙ rw (same_text-print_byte a m ha hm, prefix_one b k rest hb hk) refl

strip_prefix-172 :
    (a : ℕ) (rest : List ℕ)
    → a < 256
    → strip_prefix (codes "172.") (print_byte a ++ b'.' ∷ rest)
      ≡ (if a == 172 then some rest else none)
unfolding print_byte has_char
strip_prefix-172 a rest h =
    strip_prefix-dot (print_byte a) rest (codes "172") (print_byte-NoDot a h) refl
    ∙ ap (λ same. if same then some rest else none) (same_text-print_byte a 172 h (omega arith))

pub private_172-quad :
    (a b c d : ℕ)
    → a < 256
    → b < 256
    → c < 256
    → private_172 (strip_prefix (codes "172.") (quad a b c d))
      ≡ ((a == 172) && leb 16 b && leb b 31)
private_172-quad a b c d ha hb hc =
    let rest = print_byte b ++ b'.' ∷ (print_byte c ++ b'.' ∷ print_byte d) in
    let (c0, cs, e, _) = print_byte-head c hc in
    let second : private_172 (some rest) ≡ (leb 16 b && leb b 31) =
      ap (λ x. private_172 (some (print_byte b ++ b'.' ∷ (x ++ b'.' ∷ print_byte d)))) e
      ∙ private_172_lem b c0 (cs ++ b'.' ∷ print_byte d) hb in
    ap private_172 (strip_prefix-172 a rest ha)
    ∙ elim (Bool-cases (a == 172)) [ inl f ↦ rw f second | inr f ↦ rw f refl ]

network_four :
    (p q r t : List ℕ)
    → is_octet_text q ≡ true
    → is_octet_text r ≡ true
    → is_octet_text t ≡ true
    → this_network (p ∷ q ∷ r ∷ t ∷ []) ≡ same_text p (codes "0")
unfolding any
network_four p q r t hq hr ht = rw (hq, hr, ht) (simp and_true)

split-quad :
    (a b c d : ℕ)
    → a < 256
    → b < 256
    → c < 256
    → d < 256
    → split_on b'.' (quad a b c d) ≡ print_byte a ∷ print_byte b ∷ print_byte c ∷ print_byte d ∷ []
split-quad a b c d ha hb hc hd =
    split_on-at b'.' (print_byte a) _ (print_byte-NoDot a ha)
    ∙ ap (◌∷◌ (print_byte a)) (
        split_on-at b'.' (print_byte b) _ (print_byte-NoDot b hb)
        ∙ ap (◌∷◌ (print_byte b)) (
            split_on-at b'.' (print_byte c) _ (print_byte-NoDot c hc)
            ∙ ap (◌∷◌ (print_byte c)) (split_on-end b'.' (print_byte d) (print_byte-NoDot d hd))))

pub this_network-quad :
    (a b c d : ℕ)
    → a < 256
    → b < 256
    → c < 256
    → d < 256
    → this_network (split_on b'.' (quad a b c d)) ≡ (a == 0)
unfolding print_byte
this_network-quad a b c d ha hb hc hd =
    ap this_network (split-quad a b c d ha hb hc hd)
    ∙ network_four (print_byte a) (print_byte b) (print_byte c) (print_byte d)
        (print_byte-IsOctet b hb) (print_byte-IsOctet c hc) (print_byte-IsOctet d hd)
    ∙ same_text-print_byte a 0 ha (omega arith)

pub prefixes-quad :
    (a b c d : ℕ)
    → a < 256
    → b < 256
    → (has_prefix (quad a b c d) (codes "127.") ≡ (a == 127))
      × (has_prefix (quad a b c d) (codes "169.254.") ≡ ((a == 169) && (b == 254)))
      × (has_prefix (quad a b c d) (codes "10.") ≡ (a == 10))
      × (has_prefix (quad a b c d) (codes "192.168.") ≡ ((a == 192) && (b == 168)))
unfolding print_byte
prefixes-quad a b c d ha hb = (
  prefix_one a 127 _ ha (omega arith),
  prefix_two a b 169 254 _ ha hb (omega arith) (omega arith),
  prefix_one a 10 _ ha (omega arith),
  prefix_two a b 192 168 _ ha hb (omega arith) (omega arith),
)
