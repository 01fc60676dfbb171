-- ===== src/Configstore/Masking.antt =====
-- What a client that may not reveal secrets learns of their values.
use go_kubernetes_mcp_server.Base.{
  sort_keys, sorted_keys, ℕ, String, ◌==◌, ◌≡◌, refl, ap, ◌∙◌, Bool, false, Option, none, some,
  List, [], ◌∷◌, ◌++◌, map, length, StringMap, lookup, arith, is_empty, Bool-cases, inl, inr,
}
use go_kubernetes_mcp_server.Err.{Err}
use go_kubernetes_mcp_server.Security.{Policy, check_secret_reveal}
use go_kubernetes_mcp_server.Kube.{
  Act, Reply, Scope, Answer, ok, failed, Prog, ret, SecretObject, get_secret_object,
}
use go_kubernetes_mcp_server.Kube.Rules.{Attached, unattached, run}
use go_kubernetes_mcp_server.Tools.Handler.{Outcome, fail, rpc_status_error, text, guard, settle}
use go_kubernetes_mcp_server.Configstore.{
  value_of, hash12, secret_line, secret_lines, render_secret, GetSecretArgs, get_secret,
}

check_secret_reveal-hidden :
    (p : Policy) (reveal : Bool)
    → p.reveal_secrets ≡ false
    → check_secret_reveal p reveal ≡ none
    → reveal ≡ false
unfolding check_secret_reveal
check_secret_reveal-hidden p reveal hidden h = ground arith

module _ (sha256_hex : List ℕ → List ℕ) where
  -- Two values of the same length whose digests begin with the same twelve digits.
  abbrev pub SameMask : List ℕ → List ℕ → Type 0
  SameMask v w = (hash12 sha256_hex v ≡ hash12 sha256_hex w) × (length v ≡ length w)

  -- The same keys, in one order, with values that have the same mask.
  abbrev pub Alike : StringMap (List ℕ) → StringMap (List ℕ) → Type 0
  Alike [] [] = Unit
  Alike ((k, v) ∷ m) ((j, w) ∷ n) = (k ≡ j) × SameMask v w × Alike m n
  Alike _ _ = ⊥

  -- Secrets that differ in the bytes of their values at most.
  abbrev pub AlikeSecrets : SecretObject → SecretObject → Type 0
  AlikeSecrets x y =
      (x.name ≡ y.name)
      × (x.namespace ≡ y.namespace)
      × (x.type_name ≡ y.type_name)
      × Alike x.entries y.entries

  abbrev pub AlikeAnswers : Answer SecretObject → Answer SecretObject → Type 0
  AlikeAnswers (ok x) (ok y) = AlikeSecrets x y
  AlikeAnswers (failed e) (failed f) = e ≡ f
  AlikeAnswers _ _ = ⊥

  Alike-keys :
      (m n : StringMap (List ℕ))
      → Alike m n
      → (map (λ e. e.0) m ≡ map (λ e. e.0) n) × (is_empty m ≡ is_empty n)
  Alike-keys [] [] h = (refl, refl)
  Alike-keys ((k, v) ∷ m) ((j, w) ∷ n) (e, mask, h) =
      let (keys, empty) = Alike-keys m n h in (rw (e, keys) refl, refl)
  Alike-keys [] (y ∷ n) h = elim h [ ]
  Alike-keys (x ∷ m) [] h = elim h [ ]

  Alike-lookup :
      (m n : StringMap (List ℕ)) (k : String)
      → Alike m n
      → SameMask (value_of (lookup k m)) (value_of (lookup k n))
  unfolding lookup
  Alike-lookup [] [] k h = (refl, refl)
  Alike-lookup ((i, v) ∷ m) ((j, w) ∷ n) k (e, mask, h) = rw (← e) (elim (Bool-cases (i == k)) [
    | inl same ↦ rw same mask
    | inr other ↦ rw other (Alike-lookup m n k h)
  ])
  Alike-lookup [] (y ∷ n) k h = elim h [ ]
  Alike-lookup (x ∷ m) [] k h = elim h [ ]

  masked_line :
      (k : String) (v w : List ℕ)
      → SameMask v w
      → secret_line sha256_hex false k v ≡ secret_line sha256_hex false k w
  unfolding secret_line
  masked_line k v w (e, l) = rw (e, l) refl

  masked_lines :
      (m n : StringMap (List ℕ)) (ks : List String)
      → Alike m n
      → secret_lines sha256_hex false m ks ≡ secret_lines sha256_hex false n ks
  unfolding secret_lines
  masked_lines m n [] h = refl
  masked_lines m n (k ∷ ks) h =
      let line =
        masked_line k (value_of (lookup k m)) (value_of (lookup k n)) (Alike-lookup m n k h) in
      let rest = masked_lines m n ks h in
      ap (λ l. l ++ secret_lines sha256_hex false m ks) line
      ∙ ap (λ l. secret_line sha256_hex false k (value_of (lookup k n)) ++ l) rest

  render_secret-masked :
      (x y : SecretObject)
      → AlikeSecrets x y
      → render_secret sha256_hex x false ≡ render_secret sha256_hex y false
  unfolding render_secret sorted_keys
  render_secret-masked x y (name, ns, type_name, h) =
      let (keys, empty) = Alike-keys x.entries y.entries h in
      rw
        (
          name,
          ns,
          type_name,
          keys,
          empty,
          masked_lines x.entries y.entries (sort_keys (map (λ e. e.0) y.entries)) h,
        )
        refl

  module _ {S : Type 0} (serve other : S → (a : Act) → S × Reply a) where
    same-guard :
        (st st' : S) (r r' : Attached) (check : Option Err) (k l : Unit {0} → Prog Outcome)
        → (check ≡ none → (run serve st r (k tt)).0 ≡ (run other st' r' (l tt)).0)
        → (run serve st r (guard check k)).0 ≡ (run other st' r' (guard check l)).0
    unfolding guard run
    same-guard st st' r r' none k l h = h refl
    same-guard st st' r r' (some err) k l h = refl

    same-settle :
        (st st' : S) (r r' : Attached) (action : String) (x y : Answer SecretObject) (reveal : Bool)
        → reveal ≡ false
        → AlikeAnswers x y
        → (run serve st r (settle action (λ z. ret (text (render_secret sha256_hex z reveal))) x)).0
          ≡ (run other st' r'
              (settle action (λ z. ret (text (render_secret sha256_hex z reveal))) y)).0
    unfolding settle run
    same-settle st st' r r' action (ok x) (ok y) reveal e h =
        rw e (ap text (render_secret-masked x y h))
    same-settle st st' r r' action (failed e) (failed f) reveal b h =
        ap (λ e. fail (rpc_status_error e action)) h
    same-settle st st' r r' action (ok x) (failed f) reveal b h = elim h [ ]
    same-settle st st' r r' action (failed e) (ok y) reveal b h = elim h [ ]

    -- Without --reveal-secrets the answer of get_secret, whatever it is asked, is the same on two
    -- clusters whose secrets differ only in values of one length and one twelve-digit digest.
    pub get_secret-masked :
        (p : Policy) (a : GetSecretArgs) (st st' : S)
        → p.reveal_secrets ≡ false
        → ((t t' : S) (sc : Scope) (name : String)
            → AlikeAnswers
                (serve t (get_secret_object sc name)).1
                (other t' (get_secret_object sc name)).1)
        → (run serve st unattached (get_secret sha256_hex p a)).0
          ≡ (run other st' unattached (get_secret sha256_hex p a)).0
    unfolding get_secret run
    get_secret-masked p a st st' hidden alike = same-guard st st' unattached unattached _ _ _ λ n.
        same-guard st st' unattached unattached _ _ _ λ c.
          same-guard st st' unattached unattached _ _ _ λ v.
            same-settle _ _ _ _ _ _ _ _ (check_secret_reveal-hidden p a.reveal hidden v)
              (alike _ _ _ _)
