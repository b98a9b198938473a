-- ===== src/Throttle/Tests.antt =====
-- Runs of the guard, and an application of the theorem on it.
use feedpulse.Base.{ℕ, ◌≤◌, ◌≡◌, refl, false, none, some, List, [], ◌∷◌, String, any, arith}
use feedpulse.Text.Normalize.{codes}
use feedpulse.Text.Characters.{split_on, has_prefix}
use feedpulse.Settings.Rows.{truthy}
use feedpulse.Throttle.Store.{consume_reply, no_array, values}
use feedpulse.Throttle.Guard.{
  RateLimitOptions, Request, Metadata, default, write, resolve_path, before_query,
  resolve_policy_from_route, resolve_scope, key_of, is_limited_path, billed,
}
use feedpulse.Throttle.Guard.{can_activate_over, uncounted}
use feedpulse.Throttle.Windows.{Event, passed, window_keeps_limit}

abbrev options : RateLimitOptions
options = record { window_ms = 60000; default_limit = 300; write_limit = 2 }

abbrev plain : Metadata
plain = record { skip = false; policy = none }

abbrev send_path : List ℕ
send_path = codes "/api/v1/alerts/7/send"

abbrev send_request : Request
send_request = record {
  method = "POST";
  path = send_path;
  url = send_path;
  tenant_id = some "acme";
  ip = some "10.0.0.9";
  remote_address = none;
}

route_test : resolve_policy_from_route "POST" send_path ≡ write
unfolding resolve_policy_from_route split_on
route_test = refl

other_route_test : resolve_policy_from_route "GET" send_path ≡ default
unfolding resolve_policy_from_route split_on
other_route_test = refl

path_test :
    resolve_path (record send_request { path = codes "/api/v1/feeds/?page=2" })
    ≡ codes "/api/v1/feeds"
unfolding resolve_path before_query
path_test = refl

abbrev acme_key : String
acme_key = "feedpulse:ratelimit:write:tenant:acme"

billed_test : billed options plain send_request ≡ some (acme_key, 2)
unfolding billed resolve_path before_query resolve_policy_from_route split_on is_limited_path
    has_prefix any key_of resolve_scope truthy
billed_test = refl

-- Another request of the tenant, at a time.
abbrev at : ℕ → Event
at now = record { now = now; metadata = plain; request = send_request }

window_keeps_limit_example :
    passed options acme_key 2 (at 1000 ∷ at 2000 ∷ at 2000 ∷ at 60999 ∷ []) [] ≤ 2
unfolding any
window_keeps_limit_example =
    window_keeps_limit options acme_key 2 (at 1000) (at 2000 ∷ at 2000 ∷ at 60999 ∷ []) []
      billed_test refl (omega arith, (omega arith, (omega arith, tt)))

-- A reply without a time to live stands for a whole window, and one without hits throws.
reply_test :
    consume_reply 60000 (values (some 3) none)
    ≡ some (record { total_hits = 3; reset_after_ms = 60000 })
unfolding consume_reply
reply_test = refl

bad_reply_test : consume_reply 60000 no_array ≡ none
unfolding consume_reply
bad_reply_test = refl

-- A store that throws lets the request pass.
open_test : can_activate_over options plain send_request (λ key window_ms. none) ≡ uncounted
unfolding can_activate_over
open_test = rw billed_test refl
