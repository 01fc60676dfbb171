-- ===== src/Config/Laws.antt =====
-- What a validated configuration guarantees.
use go_kubernetes_mcp_server.Base.{
  ℕ, String, ◌≡◌, ◌≢◌, refl, ◌⊎◌, inl, inr, Bool, true, false, none, some, List, [], ◌∷◌, ◌++◌, any,
  codes, nat_eq, arith, equal_fold, eq_iff, Bool-cases, codes_eq_lem, ◌&&◌, not, if◌then◌else◌,
  subst, ap, ◌↔◌,
}
use go_kubernetes_mcp_server.Config.{
  Config, before_last_colon, listen_host, check_fields, validate, validate_http_exposure,
  is_loopback_listen,
}

-- The host of a listen address: all of an address without a colon, and else what stands before the last
-- colon.
abbrev pub HasHost : List ℕ → List ℕ → Type 0
HasHost addr host =
    ((addr ≡ host) × (any (nat_eq b':') addr ≡ false))
    ⊎ ((port : List ℕ) × (addr ≡ host ++ b':' ∷ port) × (any (nat_eq b':') port ≡ false))

-- An address that only clients on the same machine reach.
abbrev pub IsLoopback : String → Type 0
IsLoopback addr =
    HasHost (codes addr) (codes "127.0.0.1")
    ⊎ (HasHost (codes addr) (codes "localhost") ⊎ HasHost (codes addr) (codes "::1"))

before_last_colon-none :
    (addr : List ℕ) → any (nat_eq b':') addr ≡ false → before_last_colon addr ≡ none
unfolding before_last_colon
before_last_colon-none [] h = refl
before_last_colon-none (c ∷ s) h = ground (arith, before_last_colon-none s)

before_last_colon-some :
    (host port : List ℕ)
    → any (nat_eq b':') port ≡ false
    → before_last_colon (host ++ b':' ∷ port) ≡ some host
unfolding before_last_colon
before_last_colon-some [] port h = rw (before_last_colon-none port h) refl
before_last_colon-some (c ∷ host) port h = rw (before_last_colon-some host port h) refl

colon_split :
    (addr : List ℕ)
    → ((before_last_colon addr ≡ none) × (any (nat_eq b':') addr ≡ false))
      ⊎ ((host : List ℕ) × (before_last_colon addr ≡ some host)
          × ((port : List ℕ) × (addr ≡ host ++ b':' ∷ port) × (any (nat_eq b':') port ≡ false)))
unfolding before_last_colon
colon_split [] = inl (refl, refl)
colon_split (c ∷ s) = elim (colon_split s) [
  | inr (host, e, (port, same, clear)) ↦
      inr (c ∷ host, rw e refl, (port, ap (λ t. c ∷ t) same, clear))
  | inl (e, clear) ↦ elim (Bool-cases (nat_eq c b':')) [
    | inl colon ↦ inr ([], rw (e, colon) refl, (s, ap (λ d. d ∷ s) (ground (arith, colon)), clear))
    | inr other ↦ inl (rw (e, other) refl, ground (arith, other, clear))
  ]
]

-- `listenHost` finds the host of an address, and an address has no other.
listen_host-HasHost : (addr : List ℕ) → HasHost addr (listen_host addr)
unfolding listen_host
listen_host-HasHost addr = elim (colon_split addr) [
  | inl (e, clear) ↦ rw (listen_host, e) (inl (refl, clear))
  | inr (host, e, split) ↦ rw (listen_host, e) (inr split)
]

HasHost-listen_host : (addr host : List ℕ) → HasHost addr host → listen_host addr ≡ host
unfolding listen_host
HasHost-listen_host addr host (inl (same, clear)) =
    rw (listen_host, before_last_colon-none addr clear) same
HasHost-listen_host addr host (inr (port, same, clear)) =
    rw (listen_host, same, before_last_colon-some host port clear) refl

is_loopback_listen-hosts :
    (c : Config)
    → (is_loopback_listen c ≡ true) ↔ (
        (listen_host (codes c.listen) ≡ codes "127.0.0.1")
        ⊎ ((listen_host (codes c.listen) ≡ codes "localhost")
            ⊎ (listen_host (codes c.listen) ≡ codes "::1")))
unfolding is_loopback_listen
is_loopback_listen-hosts c =
    let host : List ℕ = listen_host (codes c.listen) in
    (
      (λ h. ground (
        arith,
        codes_eq_lem host (codes "127.0.0.1"),
        codes_eq_lem host (codes "localhost"),
        codes_eq_lem host (codes "::1"),
      )),
      λ h. elim h [ inl e ↦ rw e refl | inr (inl e) ↦ rw e refl | inr (inr e) ↦ rw e refl ],
    )

is_loopback_listen_iff : (c : Config) → (is_loopback_listen c ≡ true) ↔ IsLoopback c.listen
is_loopback_listen_iff c =
    let found = listen_host-HasHost (codes c.listen) in
    (
      (λ h. elim ((is_loopback_listen-hosts c).0 h) [
        | inl e ↦ inl (subst (HasHost (codes c.listen)) e found)
        | inr (inl e) ↦ inr (inl (subst (HasHost (codes c.listen)) e found))
        | inr (inr e) ↦ inr (inr (subst (HasHost (codes c.listen)) e found))
      ]),
      λ l. (is_loopback_listen-hosts c).1 (elim l [
        | inl k ↦ inl (HasHost-listen_host _ _ k)
        | inr (inl k) ↦ inr (inl (HasHost-listen_host _ _ k))
        | inr (inr k) ↦ inr (inr (HasHost-listen_host _ _ k))
      ]),
    )

-- What a server over HTTP needs unless it is told to do without.
abbrev pub IsProtected : Config → Type 0
IsProtected c =
    IsLoopback c.listen
    ⊎ (((c.tls_cert ≢ "") × (c.tls_key ≢ "")) ⊎ ((c.auth_token ≢ "") ⊎ (c.auth_token_file ≢ "")))

exposure_iff : (c : Config) → (validate_http_exposure c ≡ none) ↔ IsProtected c
unfolding validate_http_exposure
exposure_iff c = ground (
  arith,
  is_loopback_listen_iff c,
  eq_iff c.tls_cert "",
  eq_iff c.tls_key "",
  eq_iff c.auth_token "",
  eq_iff c.auth_token_file "",
)

-- The flag that `Validate` sets plays no part in its checks.
check_fields-allow_writes :
    (c : Config) (b : Bool) → check_fields (record c { allow_writes = b }) ≡ check_fields c
unfolding check_fields
check_fields-allow_writes c b = refl

exposure-allow_writes :
    (c : Config) (b : Bool)
    → validate_http_exposure (record c { allow_writes = b }) ≡ validate_http_exposure c
unfolding validate_http_exposure is_loopback_listen
exposure-allow_writes c b = refl

validate-exposure :
    (c : Config)
    → (validate c).1 ≡ elim (check_fields c) [
      | some err ↦ some err
      | none ↦
          if equal_fold c.transport "http" && not c.insecure_http
          then validate_http_exposure c
          else none
    ]
unfolding validate
validate-exposure c = ground (arith, exposure-allow_writes c true)

-- `Validate` passes a configuration exactly if its fields pass and, over HTTP without --insecure-http,
-- it listens on a loopback address, or names both a certificate and a key, or names a token or a token
-- file. A loopback address is one whose host, before the last colon, is 127.0.0.1, localhost or ::1.
pub validate_iff :
    (c : Config)
    → ((validate c).1 ≡ none) ↔ (
        (check_fields c ≡ none)
        × (equal_fold c.transport "http" ≡ true → c.insecure_http ≡ false → IsProtected c))
validate_iff c = ground (arith, validate-exposure c, exposure_iff c)

-- What `Validate` has passed it passes again, and leaves as it is.
pub validate_idempotent :
    (c : Config) → (validate c).1 ≡ none → validate (validate c).0 ≡ validate c
unfolding validate
validate_idempotent c h =
    ground (arith, check_fields-allow_writes c true, exposure-allow_writes c true)
