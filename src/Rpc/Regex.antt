-- ===== src/Rpc/Regex.antt =====
-- The regular expressions of internal/rpc/args.go, and a matcher by derivatives: what Go's `regexp`
-- does for a pattern that is anchored at both ends.
use go_kubernetes_mcp_server.Base.{
  ℕ, Bool, true, false, ◌&&◌, ◌||◌, List, [], ◌∷◌, leb, nat_eq, if◌then◌else◌,
}

pub data Regex : Type 0 where
  never : Regex
  empty : Regex
  char : (ℕ → Bool) → Regex
  seq : Regex → Regex → Regex
  alt : Regex → Regex → Regex
  star : Regex → Regex

pub nullable : Regex → Bool
nullable never = false
nullable empty = true
nullable (char f) = false
nullable (seq r q) = nullable r && nullable q
nullable (alt r q) = nullable r || nullable q
nullable (star r) = true

-- What may follow `c` in a match.
unfoldable pub deriv : ℕ → Regex → Regex
unfolding nullable
deriv c never = never
deriv c empty = never
deriv c (char f) = if f c then empty else never
deriv c (seq r q) = alt (seq (deriv c r) q) (if nullable r then deriv c q else never)
deriv c (alt r q) = alt (deriv c r) (deriv c q)
deriv c (star r) = seq (deriv c r) (star r)

unfoldable pub matches : Regex → List ℕ → Bool
unfolding nullable deriv
matches r [] = nullable r
matches r (c ∷ s) = matches (deriv c r) s

pub opt : Regex → Regex
opt r = alt r empty

-- [a-z0-9]
abbrev pub is_alnum : ℕ → Bool
is_alnum c = leb b'a' c && leb c b'z' || leb b'0' c && leb c b'9'

-- [-a-z0-9]
abbrev pub is_ldh : ℕ → Bool
is_ldh c = nat_eq c b'-' || is_alnum c

abbrev pub is_dot : ℕ → Bool
is_dot c = nat_eq c b'.'

-- [a-z0-9]([-a-z0-9]*[a-z0-9])?
unfoldable pub dns_label : Regex
unfolding opt
dns_label = seq (char is_alnum) (opt (seq (star (char is_ldh)) (char is_alnum)))

-- [a-z0-9]([-a-z0-9]*[a-z0-9])?(\.[a-z0-9]([-a-z0-9]*[a-z0-9])?)*
unfoldable pub dns_subdomain : Regex
unfolding dns_label
dns_subdomain = seq dns_label (star (seq (char is_dot) dns_label))
