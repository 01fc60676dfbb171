-- ===== src/Troubleshoot/Logs/Laws.antt =====
-- How much get_logs reads, and what it reads.
use go_kubernetes_mcp_server.Base.{
  ℕ, ◌+◌, ◌≤◌, ◌<◌, ℤ, pos, ◌≡◌, none, some, List, [], ◌∷◌, ◌++◌, length, All, arith, length-append,
  refl, ◌∙◌, Bool-cases, Option-cases, ap, ltb, ltb→lt, inl, inr,
}
use mathlib.Core.List.{append_assoc, append-nil}
use go_kubernetes_mcp_server.Kube.{Chunk, eof, broken_read}
use go_kubernetes_mcp_server.Troubleshoot.Logs.{ReadEnd, whole, broke, below, read_at_most}

-- The buffer of a read.
abbrev pub buffer : ℕ
buffer = 32768

abbrev pub Fits : Chunk → Type 0
Fits chunk = length chunk.read_bytes ≤ buffer

-- All that a stream gives up to its end or its first error.
pub all_bytes : List Chunk → List ℕ
all_bytes [] = []
all_bytes (chunk ∷ chunks) =
    let rest = all_bytes chunks in
    chunk.read_bytes ++ elim chunk.error [ none ↦ rest | some err ↦ [] ]

read_at_most-bound :
    (chunks : List Chunk) (limit : ℕ) (out : List ℕ)
    → All Fits chunks
    → length out < limit + buffer
    → length (read_at_most chunks (pos limit) out).0 < limit + buffer
unfolding read_at_most
read_at_most-bound [] limit out h k = k
read_at_most-bound (chunk ∷ chunks) limit out (h, hs) k = ground (
  arith,
  read_at_most-bound chunks limit (out ++ chunk.read_bytes) hs,
  length-append out chunk.read_bytes,
)

-- How a stream ends: at its end, or with its first error.
pub stream_end : List Chunk → ReadEnd
stream_end [] = whole
stream_end (chunk ∷ chunks) =
    let rest = stream_end chunks in
    elim chunk.error [ none ↦ rest | some err ↦ elim err [ eof ↦ whole | broken_read x ↦ broke x ] ]

-- What is read begins what the stream gives.
read_at_most-begins :
    (chunks : List Chunk) (limit : ℤ) (out : List ℕ)
    → (rest : List ℕ) × ((read_at_most chunks limit out).0 ++ rest ≡ out ++ all_bytes chunks)
unfolding read_at_most all_bytes
read_at_most-begins [] limit out = ([], refl)
read_at_most-begins (chunk ∷ chunks) limit out = elim (Bool-cases (below (length out) limit)) [
  | inr e ↦ rw e (all_bytes (chunk ∷ chunks), refl)
  | inl e ↦ elim (Option-cases chunk.error) [
    | inl f ↦
        let (rest, same) = read_at_most-begins chunks limit (out ++ chunk.read_bytes) in
        rw (e, f) (rest, same ∙ append_assoc out chunk.read_bytes (all_bytes chunks))
    | inr (err, f) ↦ rw (e, f) ([], append_assoc out chunk.read_bytes [])
  ]
]

-- A read that stays below the limit has come to the end of the stream.
read_at_most-short :
    (chunks : List Chunk) (limit : ℕ) (out : List ℕ)
    → length (read_at_most chunks (pos limit) out).0 < limit
    → read_at_most chunks (pos limit) out ≡ (out ++ all_bytes chunks, stream_end chunks)
unfolding read_at_most all_bytes stream_end
read_at_most-short [] limit out h = ground (arith, append-nil out)
read_at_most-short (chunk ∷ chunks) limit out h = ground (
  arith,
  read_at_most-short chunks limit (out ++ chunk.read_bytes),
  append_assoc out chunk.read_bytes (all_bytes chunks),
  append-nil chunk.read_bytes,
)

-- What get_logs reads of a stream whose reads fit the buffer begins what the stream gives up to its
-- end or its first error, and is less than the limit and one buffer. Where the stream gives less than
-- the limit, all of it is read, and the read ends as the stream does; where it gives as much or more,
-- as much as the limit is read.
pub read_at_most_lem :
    (chunks : List Chunk) (limit : ℕ)
    → All Fits chunks
    → (length (read_at_most chunks (pos limit) []).0 < limit + buffer)
      × ((rest : List ℕ) × ((read_at_most chunks (pos limit) []).0 ++ rest ≡ all_bytes chunks))
      × (length (all_bytes chunks) < limit
          → read_at_most chunks (pos limit) [] ≡ (all_bytes chunks, stream_end chunks))
      × (limit ≤ length (all_bytes chunks) → limit ≤ length (read_at_most chunks (pos limit) []).0)
read_at_most_lem chunks limit h =
    let (rest, begins) = read_at_most-begins chunks (pos limit) [] in
    let short = read_at_most-short chunks limit [] in
    let got : List ℕ = (read_at_most chunks (pos limit) []).0 in
    (
      read_at_most-bound chunks limit [] h (omega arith),
      (rest, begins),
      λ less.
          short (omega (arith, less, length-append {A = ℕ} got rest, ap (length {A = ℕ}) begins)),
      λ le. elim (Bool-cases (ltb (length got) limit)) [
        | inl less ↦
            let same = ap (λ r. length r.0) (short (ltb→lt _ _ less)) in
            omega (arith, le, same, ltb→lt _ _ less)
        | inr more ↦ ground (arith, more)
      ],
    )
