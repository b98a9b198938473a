-- ===== src/Http/UrlSafety.antt =====
-- shared/http/url-safety.ts. The platform's `URL` parser is an argument: a `Url` has the parts that
-- the code reads or sets. A host of an http url is ASCII.
use feedpulse.Base.{
  ℕ, ◌/◌, ◌%◌, Bool, true, false, not, ◌&&◌, ◌||◌, Option, none, some, List, [], ◌∷◌, ◌++◌, String,
  str_eq, leb, ◌==◌, if◌then◌else◌, length, any, ◌⊎◌, inl, inr,
}
use feedpulse.Text.Normalize.{codes}
use feedpulse.Text.Keywords.{strip_prefix}
use feedpulse.Text.Characters.{
  same_text, has_prefix, has_suffix, has_char, split_on, is_digit, is_hex_digit, parse_hex_from,
  print_byte, lower_ascii,
}

pub record Url : Type 0 where
  pub protocol : String
  pub hostname : List ℕ
  pub port : String
  pub pathname : List ℕ
  pub hash : String
  -- The credentials and the query, which the code never looks at.
  pub others : String

pub data UrlSafetyError : Type 0 where
  unsafe_protocol unsafe_host : UrlSafetyError

-- `^fc[0-9a-f]{2}:` and `^fd[0-9a-f]{2}:`, behind the first two letters.
abbrev pub two_hex_digits_and_colon : Option (List ℕ) → Bool
two_hex_digits_and_colon (some (a ∷ b ∷ c ∷ rest)) = is_hex_digit a && is_hex_digit b && (c == b':')
two_hex_digits_and_colon _ = false

-- `(1[6-9]|2[0-9]|3[01])\.`, behind `172.`.
abbrev pub private_172 : Option (List ℕ) → Bool
private_172 (some (a ∷ b ∷ c ∷ rest)) =
    (((a == b'1') && leb b'6' b && leb b b'9')
      || ((a == b'2') && is_digit b)
      || ((a == b'3') && leb b'0' b && leb b b'1'))
    && (c == b'.')
private_172 _ = false

abbrev pub is_octet_text : List ℕ → Bool
is_octet_text part =
    leb 1 (length part) && leb (length part) 3 && not (any (λ c. not (is_digit c)) part)

-- `^0(\.\d{1,3}){1,3}$`
abbrev pub this_network : List (List ℕ) → Bool
this_network (first ∷ rest) =
    same_text first (codes "0")
    && leb 1 (length rest)
    && leb (length rest) 3
    && not (any (λ part. not (is_octet_text part)) rest)
this_network [] = false

-- `BLOCKED_HOSTS.some(...)`
unfoldable pub matches_blocked_host : List ℕ → Bool
unfolding has_prefix strip_prefix split_on any
matches_blocked_host h =
    same_text (lower_ascii h) (codes "localhost")
    || has_prefix h (codes "127.")
    || has_prefix h (codes "169.254.")
    || has_prefix h (codes "10.")
    || has_prefix h (codes "192.168.")
    || private_172 (strip_prefix (codes "172.") h)
    || same_text h (codes "::1")
    || has_prefix (lower_ascii h) (codes "fe80:")
    || two_hex_digits_and_colon (strip_prefix (codes "fc") (lower_ascii h))
    || two_hex_digits_and_colon (strip_prefix (codes "fd") (lower_ascii h))
    || this_network (split_on b'.' h)
    || same_text h (codes "::")

abbrev pub blocked_host_suffixes : List (List ℕ)
blocked_host_suffixes =
    codes ".localhost" ∷ codes ".local" ∷ codes ".internal" ∷ codes ".home.arpa" ∷ []

-- `endsWith('.') ? slice(0, -1) : ...`, of which `normalizeHostname`'s `\]$` is another case.
unfoldable pub strip_last : ℕ → List ℕ → List ℕ
strip_last c [] = []
strip_last c (d ∷ []) = if d == c then [] else d ∷ []
strip_last c (d ∷ e ∷ ds) = d ∷ strip_last c (e ∷ ds)

unfoldable pub is_blocked_hostname : List ℕ → Bool
is_blocked_hostname hostname =
    let without_trailing_dot = strip_last b'.' hostname in
    matches_blocked_host hostname
    || any (has_suffix without_trailing_dot) blocked_host_suffixes
    || (not (has_char b'.' without_trailing_dot) && not (has_char b':' without_trailing_dot))

abbrev pub strip_open_bracket : List ℕ → List ℕ
strip_open_bracket [] = []
strip_open_bracket (c ∷ cs) = if c == b'[' then cs else c ∷ cs

abbrev pub is_hex_group : List ℕ → Bool
is_hex_group g = leb 1 (length g) && leb (length g) 4 && not (any (λ c. not (is_hex_digit c)) g)

-- The four bytes of two groups, in decimal: `>> 8` and `& 0xff`.
unfoldable pub dotted_quad : ℕ → ℕ → List ℕ
dotted_quad high low =
    print_byte (high / 256)
    ++ b'.'
      ∷ (print_byte (high % 256)
          ++ b'.' ∷ (print_byte (low / 256) ++ b'.' ∷ print_byte (low % 256)))

-- What `groups` of the tail behind `::ffff:` give.
unfoldable pub unmap_groups : List ℕ → List (List ℕ) → List ℕ
unmap_groups hostname (high ∷ low ∷ []) =
    if is_hex_group high && is_hex_group low
    then dotted_quad (parse_hex_from 0 high) (parse_hex_from 0 low)
    else hostname
unmap_groups hostname _ = hostname

unfoldable pub unmap_ipv4 : List ℕ → Option (List ℕ) → List ℕ
unmap_ipv4 hostname none = hostname
unmap_ipv4 hostname (some []) = hostname
unmap_ipv4 hostname (some (c ∷ tail)) =
    if has_char b'.' (c ∷ tail) then c ∷ tail else unmap_groups hostname (split_on b':' (c ∷ tail))

unfoldable pub normalize_hostname : List ℕ → List ℕ
normalize_hostname raw =
    let hostname = strip_last b']' (strip_open_bracket (lower_ascii raw)) in
    unmap_ipv4 hostname (strip_prefix (codes "::ffff:") hostname)

abbrev pub is_empty : List ℕ → Bool
is_empty [] = true
is_empty _ = false

-- `assertSafePublicUrl` of a `URL`.
unfoldable pub check_url : Bool → Url → UrlSafetyError ⊎ Url
check_url allow_private_hosts url =
    if not (str_eq url.protocol "http:") && not (str_eq url.protocol "https:")
    then inl unsafe_protocol
    else if allow_private_hosts
    then inr url
    else if is_empty (normalize_hostname url.hostname)
    then inl unsafe_host
    else if is_blocked_hostname (normalize_hostname url.hostname)
    then inl unsafe_host
    else inr url

-- `assertSafePublicUrl` of a text, whose parse is given.
unfoldable pub assert_safe_public_url : Bool → Option Url → UrlSafetyError ⊎ Url
assert_safe_public_url allow_private_hosts none = inl unsafe_protocol
assert_safe_public_url allow_private_hosts (some url) = check_url allow_private_hosts url

abbrev pub is_safe_answer : UrlSafetyError ⊎ Url → Bool
is_safe_answer (inl e) = false
is_safe_answer (inr url) = true

unfoldable pub is_safe_public_url : Bool → Url → Bool
is_safe_public_url allow_private_hosts url = is_safe_answer (check_url allow_private_hosts url)

-- `privateFeedHostsAllowedByEnv`, of the variable's value in lower case and trimmed.
unfoldable pub private_feed_hosts_allowed_by_env : Option String → Bool
private_feed_hosts_allowed_by_env none = false
private_feed_hosts_allowed_by_env (some raw) =
    str_eq raw "1" || str_eq raw "true" || str_eq raw "yes" || str_eq raw "on"

unfoldable pub resolve_allow_private_feed_hosts : Option Bool → Option String → Bool
unfolding private_feed_hosts_allowed_by_env
resolve_allow_private_feed_hosts (some value) env = value
resolve_allow_private_feed_hosts none env = private_feed_hosts_allowed_by_env env
