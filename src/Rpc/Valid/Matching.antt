-- ===== src/Rpc/Valid/Matching.antt =====
-- The matcher as equations between languages.
use go_kubernetes_mcp_server.Base.{
  ℕ, ◌≡◌, refl, ◌∙◌, Bool, false, ◌&&◌, ◌||◌, List, [], ◌∷◌, arith, Bool-cases, inl, inr,
}
use go_kubernetes_mcp_server.Rpc.Regex.{Regex, never, empty, char, seq, alt, deriv, matches}

pub matches-never : (s : List ℕ) → matches never s ≡ false
unfolding matches
matches-never [] = refl
matches-never (c ∷ s) = matches-never s

pub matches-alt : (r q : Regex) (s : List ℕ) → matches (alt r q) s ≡ (matches r s || matches q s)
unfolding matches
matches-alt r q [] = refl
matches-alt r q (c ∷ s) = matches-alt (deriv c r) (deriv c q) s

-- Two expressions of one language are interchangeable at the head of a sequence.
pub matches-seq_congr :
    (r r' q : Regex)
    → ((s : List ℕ) → matches r s ≡ matches r' s)
    → (s : List ℕ) → matches (seq r q) s ≡ matches (seq r' q) s
unfolding matches
matches-seq_congr r r' q h [] = rw (h []) refl
matches-seq_congr r r' q h (c ∷ s) =
    rw (matches-alt, matches-alt, matches-seq_congr (deriv c r) (deriv c r') q (λ t. h (c ∷ t)) s)
      (rw (h []) refl)

pub matches-seq_never : (q : Regex) (s : List ℕ) → matches (seq never q) s ≡ false
unfolding matches
matches-seq_never q [] = refl
matches-seq_never q (c ∷ s) =
    matches-alt (seq never q) never s ∙ ground (arith, matches-seq_never q s, matches-never s)

pub matches-seq_empty : (q : Regex) (s : List ℕ) → matches (seq empty q) s ≡ matches q s
unfolding matches
matches-seq_empty q [] = refl
matches-seq_empty q (c ∷ s) =
    matches-alt (seq never q) (deriv c q) s ∙ rw (matches-seq_never q s) refl

-- A sequence after its first character.
pub matches-seq_char :
    (f : ℕ → Bool) (q : Regex) (c : ℕ) (s : List ℕ)
    → matches (seq (char f) q) (c ∷ s) ≡ (f c && matches q s)
unfolding matches
matches-seq_char f q c s = elim (Bool-cases (f c)) [
  | inl e ↦ rw (e, matches-alt) (ground (arith, matches-seq_empty q s, matches-never s))
  | inr e ↦ rw (e, matches-alt) (ground (arith, matches-seq_never q s, matches-never s))
]
