-- ===== src/Http/Octets.antt =====
-- Dotted quads as texts: the decimal bytes, and how the patterns of url-safety.ts read them.
use feedpulse.Base.{
  ℕ, ◌+◌, ◌/◌, ◌%◌, ◌<◌, ◌≡◌, refl, true, false, ◌&&◌, none, some, List, [], ◌∷◌, ◌++◌, leb, ltb,
  ◌==◌, if◌then◌else◌, Bool-cases, inl, inr, arith, any,
}
use feedpulse.Text.Keywords.{strip_prefix}
use feedpulse.Text.Characters.{same_text, has_prefix, has_char, split_on, is_digit, print_byte}
use feedpulse.Http.UrlSafety.{is_octet_text, private_172}

-- No dot in the text.
abbrev pub NoDot : List ℕ → Type 0
NoDot xs = has_char b'.' xs ≡ false

pub print_byte-NoDot : (n : ℕ) → n < 256 → NoDot (print_byte n)
unfolding print_byte has_char
print_byte-NoDot n h = ground arith

pub print_byte-IsOctet : (n : ℕ) → n < 256 → is_octet_text (print_byte n) ≡ true
unfolding print_byte any
print_byte-IsOctet n h = ground arith

-- The first and the last character of a byte's text are digits.
pub print_byte-head :
    (n : ℕ) → n < 256 → (c : ℕ) × (cs : List ℕ) × (print_byte n ≡ c ∷ cs) × (is_digit c ≡ true)
unfolding print_byte
print_byte-head n h = elim (Bool-cases (ltb n 10)) [
  | inl e ↦ (b'0' + n, [], rw e refl, ground arith)
  | inr e ↦ elim (Bool-cases (ltb n 100)) [
    | inl f ↦ (b'0' + n / 10, (b'0' + n % 10) ∷ [], rw (e, f) refl, ground arith)
    | inr f ↦
        (b'0' + n / 100, (b'0' + n / 10 % 10) ∷ (b'0' + n % 10) ∷ [], rw (e, f) refl, ground arith)
  ]
]

pub print_byte-last :
    (n : ℕ)
    → n < 256
    → (cs : List ℕ) × (c : ℕ) × (print_byte n ≡ cs ++ c ∷ []) × (is_digit c ≡ true)
unfolding print_byte
print_byte-last n h = elim (Bool-cases (ltb n 10)) [
  | inl e ↦ ([], b'0' + n, rw e refl, ground arith)
  | inr e ↦ elim (Bool-cases (ltb n 100)) [
    | inl f ↦ ((b'0' + n / 10) ∷ [], b'0' + n % 10, rw (e, f) refl, ground arith)
    | inr f ↦
        ((b'0' + n / 100) ∷ (b'0' + n / 10 % 10) ∷ [], b'0' + n % 10, rw (e, f) refl, ground arith)
  ]
]

pub has_prefix-dot :
    (xs rest p q : List ℕ)
    → NoDot xs
    → NoDot p
    → has_prefix (xs ++ b'.' ∷ rest) (p ++ b'.' ∷ q) ≡ (same_text xs p && has_prefix rest q)
unfolding has_prefix has_char
has_prefix-dot [] rest [] q h k = refl
has_prefix-dot [] rest (p ∷ ps) q h k = ground arith
has_prefix-dot (x ∷ xs) rest [] q h k = ground arith
has_prefix-dot (x ∷ xs) rest (p ∷ ps) q h k = ground (arith, has_prefix-dot xs rest ps q)

pub strip_prefix-dot :
    (xs rest p : List ℕ)
    → NoDot xs
    → NoDot p
    → strip_prefix (p ++ b'.' ∷ []) (xs ++ b'.' ∷ rest)
      ≡ (if same_text xs p then some rest else none)
unfolding strip_prefix has_char
strip_prefix-dot [] rest [] h k = refl
strip_prefix-dot [] rest (p ∷ ps) h k = ground arith
strip_prefix-dot (x ∷ xs) rest [] h k = ground arith
strip_prefix-dot (x ∷ xs) rest (p ∷ ps) h k = ground (arith, strip_prefix-dot xs rest ps)

pub split_on-at :
    (c : ℕ) (xs rest : List ℕ)
    → has_char c xs ≡ false
    → split_on c (xs ++ c ∷ rest) ≡ xs ∷ split_on c rest
unfolding split_on has_char
split_on-at c [] rest h = ground arith
split_on-at c (x ∷ xs) rest h = ground (arith, split_on-at c xs rest)

pub split_on-end : (c : ℕ) (xs : List ℕ) → has_char c xs ≡ false → split_on c xs ≡ xs ∷ []
unfolding split_on has_char
split_on-end c [] h = refl
split_on-end c (x ∷ xs) h = ground (arith, split_on-end c xs)

pub has_char-dot : (xs rest : List ℕ) → has_char b'.' (xs ++ b'.' ∷ rest) ≡ true
unfolding has_char
has_char-dot [] rest = refl
has_char-dot (x ∷ xs) rest = ground (arith, has_char-dot xs rest)

-- The second octet of 172.16.0.0/12.
pub private_172_lem :
    (b c : ℕ) (rest : List ℕ)
    → b < 256
    → private_172 (some (print_byte b ++ b'.' ∷ c ∷ rest)) ≡ (leb 16 b && leb b 31)
unfolding print_byte
private_172_lem b c rest h = ground arith

-- The text of a byte tells the byte.
pub same_text-print_byte :
    (n m : ℕ) → n < 256 → m < 256 → same_text (print_byte n) (print_byte m) ≡ (n == m)
unfolding print_byte
same_text-print_byte n m h k = ground arith
