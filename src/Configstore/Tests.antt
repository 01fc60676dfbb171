-- ===== src/Configstore/Tests.antt =====
-- Two clusters whose secret differs in its value.
use go_kubernetes_mcp_server.Base.{
  ℕ, ◌≡◌, refl, false, String, List, [], ◌∷◌, codes, replicate, sort_keys,
}
use go_kubernetes_mcp_server.Config.{defaults}
use go_kubernetes_mcp_server.Security.{from_config}
use go_kubernetes_mcp_server.Kube.{Act, Reply, ok, get_secret_object, SecretObject}
use go_kubernetes_mcp_server.Kube.Rules.{unattached, run}
use go_kubernetes_mcp_server.Kube.Fixtures.{answers}
use go_kubernetes_mcp_server.Configstore.{
  GetSecretArgs, get_secret, GetConfigMapArgs, get_configmap,
}
use go_kubernetes_mcp_server.Configstore.Masking.{get_secret-masked}

-- A stand-in for a digest.
abbrev no_digest : List ℕ → List ℕ
no_digest v = replicate 64 48

abbrev secret_with : List ℕ → String → SecretObject
secret_with v name = record {
  name = name;
  namespace = "shop";
  type_name = "Opaque";
  entries = ("password", v) ∷ [];
}

abbrev secret_answers : List ℕ → (a : Act) → Reply a
secret_answers v (get_secret_object sc name) = ok (secret_with v name)
secret_answers v a = answers [] a

abbrev serve_secret : List ℕ → ℕ → (a : Act) → ℕ × Reply a
serve_secret v st a = (st, secret_answers v a)

abbrev read_db : GetSecretArgs
read_db = record { namespace = "shop"; name = "db"; reveal = false }

get_secret-masked_example :
    (run
      (serve_secret (codes "hunter2"))
      0
      unattached
      (get_secret no_digest (from_config defaults) read_db)).0
    ≡ (run
        (serve_secret (codes "letme1n"))
        0
        unattached
        (get_secret no_digest (from_config defaults) read_db)).0
unfolding from_config go_kubernetes_mcp_server.Configstore.hash12
get_secret-masked_example =
    get_secret-masked no_digest (serve_secret (codes "hunter2")) (serve_secret (codes "letme1n"))
      (from_config defaults) read_db 0 0 refl
      (λ t t' sc name. (refl, refl, refl, (refl, (refl, refl), tt)))

sort_keys-upper : sort_keys ("b" ∷ "a" ∷ "B" ∷ []) ≡ "B" ∷ "a" ∷ "b" ∷ []
unfolding sort_keys
sort_keys-upper = refl

abbrev read_settings : GetConfigMapArgs
read_settings = record { namespace = ""; name = "settings" }
