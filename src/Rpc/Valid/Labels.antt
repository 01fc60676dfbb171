-- ===== src/Rpc/Valid/Labels.antt =====
-- The expression of a DNS label against a direct description of labels.
use go_kubernetes_mcp_server.Base.{
  ℕ, ◌≡◌, refl, ◌∙◌, sym, Bool, false, ◌&&◌, ◌||◌, List, [], ◌∷◌, arith, Bool-cases, inl, inr, all,
  is_empty, if◌then◌else◌,
}
use go_kubernetes_mcp_server.Rpc.Regex.{
  Regex, never, empty, char, seq, alt, star, deriv, matches, dns_label, is_alnum, is_ldh,
}
use go_kubernetes_mcp_server.Rpc.Valid.Matching.{
  matches-never, matches-alt, matches-seq_congr, matches-seq_never, matches-seq_empty,
  matches-seq_char,
}

abbrev pub first_alnum : List ℕ → Bool
first_alnum [] = false
first_alnum (c ∷ s) = is_alnum c

abbrev pub last_alnum : List ℕ → Bool
last_alnum [] = false
last_alnum (c ∷ []) = is_alnum c
last_alnum (c ∷ d ∷ s) = last_alnum (d ∷ s)

-- Letters in lower case, digits and dashes, with a letter or a digit at both ends.
abbrev pub is_label : List ℕ → Bool
is_label s = all is_ldh s && (first_alnum s && last_alnum s)

matches-empty : (s : List ℕ) → matches empty s ≡ is_empty s
unfolding matches
matches-empty [] = refl
matches-empty (c ∷ s) = matches-never s

matches-seq_never_congr :
    (r q : Regex)
    → ((s : List ℕ) → matches r s ≡ false)
    → (s : List ℕ) → matches (seq r q) s ≡ false
matches-seq_never_congr r q h s =
    matches-seq_congr r never q (λ t. h t ∙ sym (matches-never t)) s ∙ matches-seq_never q s

-- [-a-z0-9]*[a-z0-9]
abbrev tail_regex : Regex
tail_regex = seq (star (char is_ldh)) (char is_alnum)

abbrev tail_ok : List ℕ → Bool
tail_ok s = all is_ldh s && last_alnum s

matches-char : (f : ℕ → Bool) (c : ℕ) (s : List ℕ) → matches (char f) (c ∷ s) ≡ (f c && is_empty s)
unfolding matches
matches-char f c s = elim (Bool-cases (f c)) [
  | inl e ↦ rw (e, matches-empty s)
  | inr e ↦ rw (e, matches-never s)
]

-- What follows one character of the star.
matches-tail_round :
    (c : ℕ) (s : List ℕ)
    → matches (seq (seq (if is_ldh c then empty else never) (star (char is_ldh))) (char is_alnum)) s
      ≡ (is_ldh c && matches tail_regex s)
matches-tail_round c s = elim (Bool-cases (is_ldh c)) [
  | inl e ↦ rw e (
      matches-seq_congr (seq empty (star (char is_ldh))) (star (char is_ldh)) (char is_alnum)
        (matches-seq_empty (star (char is_ldh))) s)
  | inr e ↦ rw e (
      matches-seq_never_congr (seq never (star (char is_ldh))) (char is_alnum)
        (matches-seq_never (star (char is_ldh))) s)
]

matches-tail_cons :
    (c : ℕ) (s : List ℕ)
    → matches tail_regex (c ∷ s)
      ≡ (is_ldh c && matches tail_regex s || matches (char is_alnum) (c ∷ s))
unfolding matches
matches-tail_cons c s =
    matches-alt (seq (seq (deriv c (char is_ldh)) (star (char is_ldh))) (char is_alnum))
      (deriv c (char is_alnum)) s
    ∙ rw (matches-tail_round c s) refl

matches-tail : (s : List ℕ) → matches tail_regex s ≡ tail_ok s
matches-tail [] = unfold matches in refl
matches-tail (c ∷ []) =
    matches-tail_cons c [] ∙ ground (arith, matches-char is_alnum c [], matches-tail [])
matches-tail (c ∷ d ∷ s) =
    matches-tail_cons c (d ∷ s)
    ∙ ground (arith, matches-char is_alnum c (d ∷ s), matches-tail (d ∷ s))

-- The expression matches exactly the labels.
pub matches-label : (s : List ℕ) → matches dns_label s ≡ is_label s
unfolding dns_label
matches-label [] = unfold matches in refl
matches-label (c ∷ s) = matches-seq_char is_alnum (alt tail_regex empty) c s ∙ label_rest s
  where
    label_rest : (t : List ℕ) → (is_alnum c && matches (alt tail_regex empty) t) ≡ is_label (c ∷ t)
    label_rest [] =
        rw (matches-alt tail_regex empty [], matches-tail [], matches-empty []) (ground arith)
    label_rest (d ∷ t) =
        rw (matches-alt tail_regex empty (d ∷ t), matches-tail (d ∷ t), matches-empty (d ∷ t))
          (ground arith)
