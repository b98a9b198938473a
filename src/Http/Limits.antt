-- ===== src/Http/Limits.antt =====
-- What the reading of a body gives, against the bytes that the origin sends.
use feedpulse.Base.{
  ℕ, ◌+◌, ◌≤◌, ◌≡◌, refl, sym, ap, ◌∙◌, Bool, true, false, List, [], ◌∷◌, ◌++◌, ltb, if◌then◌else◌,
  ◌⊎◌, inl, inr, length, length-append, Bool-cases, arith,
}
use mathlib.Core.List.{append_assoc, append-nil}
use feedpulse.Http.SafeFetch.{
  Response, Body, buffered, stream, Read, chunk, no_value, rejected, FetchError, body_too_large,
}
use feedpulse.Http.Body.{within_budget, concat, read_chunks, read_body_bytes, read_bytes_with_limit}

-- All that the stream delivers.
abbrev pub payload_of : List Read → List ℕ
payload_of [] = []
payload_of (chunk value ∷ reads) = value ++ payload_of reads
payload_of (no_value ∷ reads) = payload_of reads
payload_of (rejected t ∷ reads) = []

abbrev pub payload : Body → List ℕ
payload (buffered bytes) = bytes
payload (stream reads) = payload_of reads

-- No read is rejected.
abbrev pub arrives_all : List Read → Bool
arrives_all [] = true
arrives_all (chunk value ∷ reads) = arrives_all reads
arrives_all (no_value ∷ reads) = arrives_all reads
arrives_all (rejected t ∷ reads) = false

abbrev pub arrives : Body → Bool
arrives (buffered bytes) = true
arrives (stream reads) = arrives_all reads

-- The bytes, or the error if they are more than the limit.
abbrev pub limited : ℕ → List ℕ → FetchError ⊎ List ℕ
limited max_bytes bytes =
    if ltb max_bytes (length bytes) then inl (body_too_large max_bytes) else inr bytes

concat-snoc : (chunks : List (List ℕ)) (v : List ℕ) → concat (chunks ++ v ∷ []) ≡ concat chunks ++ v
unfolding concat
concat-snoc [] v = append-nil v
concat-snoc (c ∷ chunks) v = rw (concat-snoc chunks v) (sym (append_assoc c (concat chunks) v))

limited-above :
    (max_bytes : ℕ) (bytes more : List ℕ)
    → ltb max_bytes (length bytes) ≡ true
    → limited max_bytes (bytes ++ more) ≡ inl (body_too_large max_bytes)
limited-above max_bytes bytes more h = ground (arith, length-append bytes more)

read_chunks-limited :
    (max_bytes : ℕ) (chunks : List (List ℕ)) (reads : List Read)
    → length (concat chunks) ≤ max_bytes
    → arrives_all reads ≡ true
    → read_chunks max_bytes (length (concat chunks)) chunks reads
      ≡ limited max_bytes (concat chunks ++ payload_of reads)
unfolding read_chunks
read_chunks-limited max_bytes chunks [] h a = rw (append-nil (concat chunks)) (ground arith)
read_chunks-limited max_bytes chunks (no_value ∷ reads) h a =
    read_chunks-limited max_bytes chunks reads h a
read_chunks-limited max_bytes chunks (rejected t ∷ reads) h a = cc
read_chunks-limited max_bytes chunks (chunk value ∷ reads) h a =
    let grown = concat-snoc chunks value in
    let longer : length (concat chunks ++ value) ≡ length (concat chunks) + length value =
      length-append (concat chunks) value in
    elim (Bool-cases (ltb max_bytes (length (concat chunks) + length value))) [
      | inl e ↦ rw e (
          sym (limited-above max_bytes (concat chunks ++ value) (payload_of reads) (rw longer e))
          ∙ ap (limited max_bytes) (append_assoc (concat chunks) value (payload_of reads)))
      | inr e ↦
          let ih =
            read_chunks-limited max_bytes (chunks ++ value ∷ []) reads
              (rw (grown, longer) (ground arith)) a in
          rw e (
            rw (grown, longer) at ih
            ∙ ap (limited max_bytes) (append_assoc (concat chunks) value (payload_of reads)))
    ]

read_body_bytes-limited :
    (max_bytes : ℕ) (body : Body)
    → arrives body ≡ true
    → read_body_bytes max_bytes body ≡ limited max_bytes (payload body)
unfolding read_body_bytes concat
read_body_bytes-limited max_bytes (buffered bytes) a = refl
read_body_bytes-limited max_bytes (stream reads) a =
    read_chunks-limited max_bytes [] reads (omega arith) a

-- As long as no read is rejected, the reading gives exactly the bytes that the origin sends if they
-- are no more than the limit, and the declared length, if there is one, is not above it either;
-- otherwise it gives the error of a body that is too large.
pub read_bytes_limited :
    (max_bytes : ℕ) (response : Response)
    → arrives response.body ≡ true
    → read_bytes_with_limit max_bytes response ≡ (
        if within_budget max_bytes response.content_length
        then limited max_bytes (payload response.body)
        else inl (body_too_large max_bytes))
unfolding read_bytes_with_limit
read_bytes_limited max_bytes response a =
    ap
      (λ read.
        if within_budget max_bytes response.content_length
        then read
        else inl (body_too_large max_bytes))
      (read_body_bytes-limited max_bytes response.body a)
