-- ===== src/Http/Body.antt =====
-- shared/http/safe-fetch.ts: the body of a response, read up to a limit.
use feedpulse.Base.{
  ℕ, ◌+◌, ◌*◌, Bool, true, not, Option, none, some, List, [], ◌∷◌, ◌++◌, ltb, if◌then◌else◌, ◌⊎◌,
  inl, inr, length,
}
use feedpulse.Http.SafeFetch.{
  Response, Body, buffered, stream, Read, chunk, no_value, rejected, FetchError, body_too_large,
  thrown,
}

abbrev pub default_max_body_bytes : ℕ
default_max_body_bytes = 5 * 1024 * 1024

unfoldable pub within_budget : ℕ → Option ℕ → Bool
within_budget max_bytes none = true
within_budget max_bytes (some declared) = not (ltb max_bytes declared)

-- `concat(chunks, received)`: the buffer is as long as the chunks together.
unfoldable pub concat : List (List ℕ) → List ℕ
concat [] = []
concat (bytes ∷ chunks) = bytes ++ concat chunks

-- The loop of `readBodyBytes`.
unfoldable pub read_chunks : ℕ → ℕ → List (List ℕ) → List Read → FetchError ⊎ List ℕ
unfolding concat
read_chunks max_bytes received chunks [] = inr (concat chunks)
read_chunks max_bytes received chunks (chunk value ∷ reads) =
    let total = received + length value in
    let rest = read_chunks max_bytes total (chunks ++ value ∷ []) reads in
    if ltb max_bytes total then inl (body_too_large max_bytes) else rest
read_chunks max_bytes received chunks (no_value ∷ reads) =
    read_chunks max_bytes received chunks reads
read_chunks max_bytes received chunks (rejected t ∷ reads) = inl (thrown t)

unfoldable pub read_body_bytes : ℕ → Body → FetchError ⊎ List ℕ
unfolding read_chunks
read_body_bytes max_bytes (buffered bytes) =
    if ltb max_bytes (length bytes) then inl (body_too_large max_bytes) else inr bytes
read_body_bytes max_bytes (stream reads) = read_chunks max_bytes 0 [] reads

-- `readBodyWithLimit` up to the decoding: the header short-circuits.
unfoldable pub read_bytes_with_limit : ℕ → Response → FetchError ⊎ List ℕ
unfolding within_budget read_body_bytes
read_bytes_with_limit max_bytes response =
    if within_budget max_bytes response.content_length
    then read_body_bytes max_bytes response.body
    else inl (body_too_large max_bytes)
