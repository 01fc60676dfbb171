-- ===== src/Rpc/Valid/Alphabet.antt =====
-- The characters of a match are those of the expression.
use go_kubernetes_mcp_server.Base.{
  ℕ, ◌≡◌, refl, ◌∙◌, sym, Bool, true, false, List, [], ◌∷◌, arith, Bool-cases, inl, inr, all,
  if◌then◌else◌,
}
use go_kubernetes_mcp_server.Rpc.Regex.{
  Regex, never, empty, char, seq, alt, star, nullable, deriv, matches,
}
use go_kubernetes_mcp_server.Rpc.Valid.Matching.{
  matches-never, matches-alt, matches-seq_congr, matches-seq_never,
}

-- Each class of the expression holds characters of `g` only.
abbrev pub Over : (ℕ → Bool) → Regex → Type 0
Over g never = Unit
Over g empty = Unit
Over g (char f) = (c : ℕ) → f c ≡ true → g c ≡ true
Over g (seq r q) = Over g r × Over g q
Over g (alt r q) = Over g r × Over g q
Over g (star r) = Over g r

-- No text is matched.
abbrev IsVoid : Regex → Type 0
IsVoid r = (s : List ℕ) → matches r s ≡ false

seq-IsVoid : (r q : Regex) → IsVoid r → IsVoid (seq r q)
seq-IsVoid r q h s =
    matches-seq_congr r never q (λ t. h t ∙ sym (matches-never t)) s ∙ matches-seq_never q s

alt-IsVoid : (r q : Regex) → IsVoid r → IsVoid q → IsVoid (alt r q)
alt-IsVoid r q h k s = matches-alt r q s ∙ ground (arith, h s, k s)

if-IsVoid : (b : Bool) (r q : Regex) → IsVoid r → IsVoid q → IsVoid (if b then r else q)
if-IsVoid true r q h k = h
if-IsVoid false r q h k = k

-- A character outside `g` leads nowhere.
deriv-IsVoid : (g : ℕ → Bool) (c : ℕ) (r : Regex) → g c ≡ false → Over g r → IsVoid (deriv c r)
unfolding deriv
deriv-IsVoid g c never h o = matches-never
deriv-IsVoid g c empty h o = matches-never
deriv-IsVoid g c (char f) h o = elim (Bool-cases (f c)) [
  | inl e ↦ absurd (clash (o c e))
  | inr e ↦ rw e matches-never
]
  where
    clash : g c ≡ true → ⊥
    clash e = cc
deriv-IsVoid g c (seq r q) h (o, p) =
    alt-IsVoid (seq (deriv c r) q) (if nullable r then deriv c q else never)
      (seq-IsVoid (deriv c r) q (deriv-IsVoid g c r h o))
      (if-IsVoid (nullable r) (deriv c q) never (deriv-IsVoid g c q h p) matches-never)
deriv-IsVoid g c (alt r q) h (o, p) =
    alt-IsVoid (deriv c r) (deriv c q) (deriv-IsVoid g c r h o) (deriv-IsVoid g c q h p)
deriv-IsVoid g c (star r) h o = seq-IsVoid (deriv c r) (star r) (deriv-IsVoid g c r h o)

if-Over :
    (g : ℕ → Bool) (b : Bool) (r q : Regex) → Over g r → Over g q → Over g (if b then r else q)
if-Over g true r q h k = h
if-Over g false r q h k = k

Over-deriv : (g : ℕ → Bool) (c : ℕ) (r : Regex) → Over g r → Over g (deriv c r)
unfolding deriv
Over-deriv g c never o = tt
Over-deriv g c empty o = tt
Over-deriv g c (char f) o = if-Over g (f c) empty never tt tt
Over-deriv g c (seq r q) (o, p) =
    ((Over-deriv g c r o, p), if-Over g (nullable r) (deriv c q) never (Over-deriv g c q p) tt)
Over-deriv g c (alt r q) (o, p) = (Over-deriv g c r o, Over-deriv g c q p)
Over-deriv g c (star r) o = (Over-deriv g c r o, o)

pub matches-all :
    (g : ℕ → Bool) (r : Regex) (s : List ℕ) → Over g r → matches r s ≡ true → all g s ≡ true
unfolding matches
matches-all g r [] o m = refl
matches-all g r (c ∷ s) o m = elim (Bool-cases (g c)) [
  | inl e ↦ rw e (matches-all g (deriv c r) s (Over-deriv g c r o) m)
  | inr e ↦ absurd (clash (deriv-IsVoid g c r e o s))
]
  where
    clash : matches (deriv c r) s ≡ false → ⊥
    clash h = cc
