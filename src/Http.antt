-- ===== src/Http.antt =====
-- shared/http: the check of outbound urls, the fetch that repeats it on every redirect, and the body
-- that is read up to a limit.
pub mod UrlSafety
pub mod SafeFetch
pub mod Body
pub mod Charset
pub mod Redirects
pub mod Limits
pub mod Octets
pub mod Quads
pub mod BlockedHosts
pub mod MappedHosts
pub mod Tests
