-- ===== src/Rpc/Valid.antt =====
-- What the validators of internal/rpc/args.go accept.
mod Matching
pub mod Labels
mod Alphabet
use Prim.Native.String.{len}
use go_kubernetes_mcp_server.Base.{
  ℕ, ◌≤◌, ◌≡◌, refl, ◌⊎◌, ◌↔◌, inl, inr, Bool, true, false, ◌&&◌, ◌||◌, String, ◌==◌, Option, none,
  some, List, [], ◌∷◌, arith, Bool-cases, all, any, codes, contains_any, eq_iff, nat_eq,
  if◌then◌else◌,
}
use go_kubernetes_mcp_server.Rpc.Regex.{dns_label, dns_subdomain, matches, is_alnum, is_ldh, is_dot}
use go_kubernetes_mcp_server.Rpc.{
  validate_name, validate_namespace, validate_selector_token, selector_chars,
}
use Labels.{is_label, matches-label}
use Alphabet.{Over, matches-all}

-- A namespace is accepted exactly if it is empty, or is at most 63 bytes of letters in lower case,
-- digits and dashes with a letter or a digit at both ends.
pub validate_namespace_iff :
    (ns : String)
    → (validate_namespace ns ≡ none) ↔ ((ns ≡ "") ⊎ ((len ns ≤ 63) × (is_label (codes ns) ≡ true)))
unfolding validate_namespace
validate_namespace_iff ns = ground (arith, eq_iff ns "", matches-label (codes ns))

abbrev is_name_char : ℕ → Bool
is_name_char c = is_ldh c || is_dot c

dns_subdomain-Over : Over is_name_char dns_subdomain
unfolding dns_subdomain dns_label
dns_subdomain-Over =
    let label : Over is_name_char dns_label = (alnum, ((ldh, alnum), tt)) in (label, (dot, label))
  where
    alnum : (c : ℕ) → is_alnum c ≡ true → is_name_char c ≡ true
    alnum c h = ground arith

    ldh : (c : ℕ) → is_ldh c ≡ true → is_name_char c ≡ true
    ldh c h = ground arith

    dot : (c : ℕ) → is_dot c ≡ true → is_name_char c ≡ true
    dot c h = ground arith

selector_chars-exclude : (c : ℕ) → is_name_char c ≡ true → any (nat_eq c) selector_chars ≡ false
selector_chars-exclude c h = ground arith

any-all {ℓ} :
    {A : Type ℓ} (g f : A → Bool) (xs : List A)
    → ((x : A) → g x ≡ true → f x ≡ false)
    → all g xs ≡ true
    → any f xs ≡ false
any-all g f [] k h = refl
any-all g f (x ∷ xs) k h = ground (arith, k x, any-all g f xs k)

name-contains_none :
    (name : String)
    → matches dns_subdomain (codes name) ≡ true
    → contains_any name selector_chars ≡ false
unfolding contains_any
name-contains_none name m =
    any-all is_name_char (λ c. any (nat_eq c) selector_chars) (codes name) selector_chars-exclude
      (matches-all is_name_char dns_subdomain (codes name) dns_subdomain-Over m)

-- A name that `ValidateName` accepts is one that `ValidateSelectorToken` accepts: it holds no character
-- that could end or extend a clause of a selector.
pub validate_name-token :
    (name : String) → validate_name name ≡ none → validate_selector_token name ≡ none
unfolding validate_name validate_selector_token
validate_name-token name h = ground (arith, name-contains_none name, eq_iff name "")
