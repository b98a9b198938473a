-- ===== src/Opml/Urls.antt =====
-- modules/opml-imports/domain/url-normalizer.ts. The platform's `URL` and its sha256 are arguments;
-- a `URL` gives its protocol in lower case.
use feedpulse.Base.{
  ℕ, Bool, true, false, not, ◌&&◌, ◌||◌, Option, none, some, List, [], ◌∷◌, reverse, String, str_eq,
  ◌==◌, if◌then◌else◌, Result, ok, err, plain_error,
}
use feedpulse.Text.Normalize.{codes, trim}
use feedpulse.Text.Characters.{lower_ascii, same_text}
use feedpulse.Http.UrlSafety.{Url, is_safe_public_url}

pub record UrlPlatform : Type 0 where
  -- `new URL(text)`; none where it throws.
  pub parse_url : List ℕ → Option Url
  pub href : Url → String
  pub sha256 : String → String

-- `.replace(/\/{2,}/g, '/')`: the flag tells that the character before was a slash.
unfoldable pub collapse_slashes : Bool → List ℕ → List ℕ
collapse_slashes after [] = []
collapse_slashes after (c ∷ cs) =
    let rest = collapse_slashes (c == b'/') cs in if (c == b'/') && after then rest else c ∷ rest

abbrev drop_slashes : List ℕ → List ℕ
drop_slashes [] = []
drop_slashes (c ∷ cs) = let rest = drop_slashes cs in if c == b'/' then rest else c ∷ cs

unfoldable pub normalized_pathname : List ℕ → List ℕ
unfolding collapse_slashes
normalized_pathname pathname =
    let path = collapse_slashes false pathname in
    if same_text path (codes "/") then codes "/" else reverse (drop_slashes (reverse path))

abbrev pub is_default_port : String → String → Bool
is_default_port protocol port =
    (str_eq protocol "http:" && str_eq port "80") || (str_eq protocol "https:" && str_eq port "443")

unfoldable pub normalized_url : Url → Url
unfolding normalized_pathname
normalized_url url = record url {
  hostname = lower_ascii url.hostname;
  port = if is_default_port url.protocol url.port then "" else url.port;
  pathname = normalized_pathname url.pathname;
  hash = "";
}

abbrev pub is_blank : List ℕ → Bool
is_blank [] = true
is_blank _ = false

unfoldable pub normalize_parsed : UrlPlatform → Bool → Option Url → Result String
normalize_parsed p allow_private_hosts none = err (plain_error "feed_url_invalid")
normalize_parsed p allow_private_hosts (some url) =
    if not (str_eq url.protocol "http:") && not (str_eq url.protocol "https:")
    then err (plain_error "feed_url_protocol_not_supported")
    else if not (is_safe_public_url allow_private_hosts url)
    then err (plain_error "feed_url_host_not_allowed")
    else ok (p.href (normalized_url url))

unfoldable pub normalize_feed_url : UrlPlatform → Bool → List ℕ → Result String
unfolding normalize_parsed
normalize_feed_url p allow_private_hosts input =
    if is_blank (trim input)
    then err (plain_error "feed_url_empty")
    else normalize_parsed p allow_private_hosts (p.parse_url (trim input))

unfoldable pub build_normalized_feed_url_hash : UrlPlatform → String → String
build_normalized_feed_url_hash p normalized_url = p.sha256 normalized_url
