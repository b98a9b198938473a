-- ===== src/Throttle/Guard.antt =====
-- `RateLimitGuard` of shared/http/throttler.module.ts: which budget a request is billed to, and whether it
-- passes.
use feedpulse.Base.{
  ℕ, ◌+◌, ◌-◌, ◌/◌, Bool, true, false, not, ◌&&◌, ◌||◌, Option, none, some, List, [], ◌∷◌, String,
  str_eq, ◌==◌, ltb, if◌then◌else◌, any, max, or_else,
}
use Prim.Native.String.{◌++◌ as append}
use feedpulse.Text.Normalize.{codes}
use feedpulse.Text.Characters.{same_text, has_prefix, split_on}
use feedpulse.Settings.Rows.{truthy}
use feedpulse.Throttle.Store.{RateLimitConsumption, Window, consume}

pub data RateLimitPolicyName : Type 0 where
  default write : RateLimitPolicyName

pub record RateLimitOptions : Type 0 where
  pub window_ms : ℕ
  pub default_limit : ℕ
  pub write_limit : ℕ

-- The part of a request that the guard reads; the method in upper case.
pub record Request : Type 0 where
  pub method : String
  pub path : List ℕ
  pub url : List ℕ
  pub tenant_id : Option String
  pub ip : Option String
  pub remote_address : Option String

-- The metadata that a handler or its class carries.
pub record Metadata : Type 0 where
  pub skip : Bool
  pub policy : Option RateLimitPolicyName

-- The text before the first question mark.
unfoldable pub before_query : List ℕ → List ℕ
before_query [] = []
before_query (c ∷ cs) = let rest = before_query cs in if c == b'?' then [] else c ∷ rest

-- A last slash is dropped, behind a first character.
abbrev pub strip_slash : List ℕ → List ℕ
strip_slash [] = []
strip_slash (c ∷ []) = if c == b'/' then [] else c ∷ []
strip_slash (c ∷ d ∷ cs) = c ∷ strip_slash (d ∷ cs)

abbrev pub drop_slash : List ℕ → List ℕ
drop_slash [] = []
drop_slash (c ∷ cs) = c ∷ strip_slash cs

abbrev pub path_or_url : List ℕ → List ℕ → List ℕ
path_or_url [] url = url
path_or_url (c ∷ cs) url = c ∷ cs

unfoldable pub resolve_path : Request → List ℕ
resolve_path request = drop_slash (before_query (path_or_url request.path request.url))

abbrev pub is_segment : List ℕ → Bool
is_segment [] = false
is_segment _ = true

-- `feeds/validate` and `opml/imports`, below /api/v1.
abbrev pub is_write_pair : List ℕ → List ℕ → Bool
is_write_pair a b =
    (same_text a (codes "feeds") && same_text b (codes "validate"))
    || (same_text a (codes "opml") && same_text b (codes "imports"))

-- `feeds/:id/check-now` and `alerts/:id/send`.
abbrev pub is_write_action : List ℕ → List ℕ → List ℕ → Bool
is_write_action a id b =
    is_segment id
    && ((same_text a (codes "feeds") && same_text b (codes "check-now"))
        || (same_text a (codes "alerts") && same_text b (codes "send")))

-- `opml/imports/:id/confirm`
abbrev pub is_confirm : List ℕ → List ℕ → List ℕ → List ℕ → Bool
is_confirm a b id d =
    is_segment id
    && same_text a (codes "opml")
    && same_text b (codes "imports")
    && same_text d (codes "confirm")

abbrev pub is_write_tail : List (List ℕ) → Bool
is_write_tail (a ∷ b ∷ []) = is_write_pair a b
is_write_tail (a ∷ id ∷ b ∷ []) = is_write_action a id b
is_write_tail (a ∷ b ∷ id ∷ d ∷ []) = is_confirm a b id d
is_write_tail _ = false

-- The segments of the path, the empty one before its first slash included.
abbrev pub is_write_route : List (List ℕ) → Bool
is_write_route (root ∷ api ∷ version ∷ tail) =
    same_text root []
    && same_text api (codes "api")
    && same_text version (codes "v1")
    && is_write_tail tail
is_write_route _ = false

unfoldable pub resolve_policy_from_route : String → List ℕ → RateLimitPolicyName
resolve_policy_from_route method path =
    if str_eq method "POST" && is_write_route (split_on b'/' path) then write else default

abbrev pub peer : Option String → Option String → String
peer (some ip) address = ip
peer none address = or_else address "unknown"

abbrev pub scope_of : Option String → String → String
scope_of (some tenant_id) address = append "tenant:" tenant_id
scope_of none address = append "ip:" address

unfoldable pub resolve_scope : Request → String
resolve_scope request = scope_of (truthy request.tenant_id) (peer request.ip request.remote_address)

abbrev pub policy_name : RateLimitPolicyName → String
policy_name default = "default"
policy_name write = "write"

abbrev pub limit_of : RateLimitOptions → RateLimitPolicyName → ℕ
limit_of options default = options.default_limit
limit_of options write = options.write_limit

unfoldable pub key_of : RateLimitPolicyName → Request → String
key_of policy request =
    append "feedpulse:ratelimit:" (append (policy_name policy) (append ":" (resolve_scope request)))

unfoldable pub is_limited_path : List ℕ → Bool
is_limited_path path =
    has_prefix path (codes "/api/")
    && not (
        any (same_text path)
          (codes "/health" ∷ codes "/ready" ∷ codes "/live" ∷ codes "/metrics" ∷ []))

-- What a request is billed to: none where it passes without a count, else the key and the limit.
unfoldable pub billed : RateLimitOptions → Metadata → Request → Option (String × ℕ)
billed options metadata request =
    let path = resolve_path request in
    let policy = or_else metadata.policy (resolve_policy_from_route request.method path) in
    let limit = limit_of options policy in
    if not (is_limited_path path) || metadata.skip || (limit == 0)
    then none
    else some (key_of policy request, limit)

-- The headers of a counted answer; `retry_after` is set where the request is refused.
pub record Headers : Type 0 where
  pub limit : ℕ
  pub remaining : ℕ
  pub reset_seconds : ℕ
  pub retry_after : Option ℕ

pub data Answer : Type 0 where
  uncounted : Answer
  allowed refused : Headers → Answer

-- `Math.max(1, Math.ceil(resetAfterMs / 1000))`
unfoldable pub reset_seconds_of : ℕ → ℕ
reset_seconds_of ms = max 1 ((ms + 999) / 1000)

unfoldable pub judge : ℕ → RateLimitConsumption → Answer
judge limit c =
    let seconds = reset_seconds_of c.reset_after_ms in
    if ltb limit c.total_hits
    then refused (record {
      limit = limit;
      remaining = limit - c.total_hits;
      reset_seconds = seconds;
      retry_after = some seconds;
    })
    else allowed (record {
      limit = limit;
      remaining = limit - c.total_hits;
      reset_seconds = seconds;
      retry_after = none;
    })

-- A store that throws lets the request pass.
abbrev pub judge_store : ℕ → Option RateLimitConsumption → Answer
judge_store limit none = uncounted
judge_store limit (some c) = judge limit c

abbrev pub counted : ℕ → ℕ → List Window → Option (String × ℕ) → List Window × Answer
counted now window_ms windows none = (windows, uncounted)
counted now window_ms windows (some (key, limit)) =
    let (windows', c) = consume now key window_ms windows in (windows', judge limit c)

-- `canActivate` of an HTTP request where the store is `MemoryRateLimitStore`, the fallback of one
-- process; `can_activate_over` has any store.
unfoldable pub can_activate :
    RateLimitOptions → ℕ → Metadata → Request → List Window → List Window × Answer
can_activate options now metadata request windows =
    counted now options.window_ms windows (billed options metadata request)

abbrev pub judge_billed :
    ℕ → (String → ℕ → Option RateLimitConsumption) → Option (String × ℕ) → Answer
judge_billed window_ms store none = uncounted
judge_billed window_ms store (some (key, limit)) = judge_store limit (store key window_ms)

-- `canActivate` over any store: what it answers to a key and the length of a window.
unfoldable pub can_activate_over :
    RateLimitOptions → Metadata → Request → (String → ℕ → Option RateLimitConsumption) → Answer
can_activate_over options metadata request store =
    judge_billed options.window_ms store (billed options metadata request)
