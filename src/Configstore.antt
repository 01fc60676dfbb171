-- ===== src/Configstore.antt =====
-- internal/tools/configstore/configstore.go: get_configmap and get_secret; the lists are in
-- Lists. Values are bytes. SHA-256
-- in hexadecimal is a parameter; of it the program shows twelve digits.
pub mod Lists
mod Masking
pub mod Reads
mod Tests
use go_kubernetes_mcp_server.Base.{
  ℕ, pos, String, Bool, true, false, Option, none, some, List, [], ◌∷◌, ◌++◌, map, length, take,
  codes, ltb, nat_eq, is_empty, if◌then◌else◌, StringMap, lookup, sorted_keys, ◌<>◌, ◌&&◌,
}
use go_kubernetes_mcp_server.Security.{Policy, check_secret_reveal}
use go_kubernetes_mcp_server.Rpc.{validate_name}
use go_kubernetes_mcp_server.Kube.{
  Prog, ret, call, attach, namespaced, SecretObject, ConfigMapObject, get_secret_object,
  get_configmap_object,
}
use go_kubernetes_mcp_server.Tools.Handler.{
  Outcome, text, Piece, s, d, bytes, ◌>>=◌, ◌>>◌, guard, answer,
}
use go_kubernetes_mcp_server.Tools.Util.{resolve_ns, check_scope}

-- `m[k]` of a map to byte slices.
abbrev pub value_of : Option (List ℕ) → List ℕ
value_of none = []
value_of (some v) = v

abbrev text_of : Option String → String
text_of none = ""
text_of (some v) = v

data_lines : StringMap String → List String → List Piece
data_lines m [] = []
data_lines m (k ∷ ks) = s k ∷ s ": " ∷ s (text_of (lookup k m)) ∷ s "\n" ∷ data_lines m ks

-- The loop over a map: the order of its entries is open.
binary_lines : StringMap (List ℕ) → List Piece
binary_lines [] = []
binary_lines ((k, v) ∷ m) =
    s k ∷ s ": <binary, " ∷ d (pos (length v)) ∷ s " bytes>\n" ∷ binary_lines m

pub render_data : StringMap String → StringMap (List ℕ) → List Piece
unfolding data_lines binary_lines sorted_keys
render_data entries binary =
    if is_empty entries && is_empty binary
    then s "(empty)\n" ∷ []
    else data_lines entries (sorted_keys entries) ++ binary_lines binary

pub record GetSecretArgs : Type 0 where
  pub namespace : String
  pub name : String
  pub reveal : Bool

module _ (sha256_hex : List ℕ → List ℕ) where
  pub hash12 : List ℕ → List ℕ
  hash12 v = take 12 (sha256_hex v)

  -- One round of the loop of `renderSecret`.
  pub secret_line : Bool → String → List ℕ → List Piece
  secret_line true k v = s "  " ∷ s k ∷ s ": " ∷ bytes v ∷ s "\n" ∷ []
  secret_line false k v =
      s "  "
      ∷ s k
      ∷ s ": •••• (sha256:"
      ∷ bytes (hash12 v)
      ∷ s ", "
      ∷ d (pos (length v))
      ∷ s " bytes)\n"
      ∷ []

  pub secret_lines : Bool → StringMap (List ℕ) → List String → List Piece
  unfolding secret_line
  secret_lines reveal m [] = []
  secret_lines reveal m (k ∷ ks) =
      secret_line reveal k (value_of (lookup k m)) ++ secret_lines reveal m ks

  pub render_secret : SecretObject → Bool → List Piece
  unfolding secret_lines sorted_keys
  render_secret sec reveal =
      let head : List Piece =
        s "Name:       "
        ∷ s sec.name
        ∷ s "\nNamespace:  "
        ∷ s sec.namespace
        ∷ s "\nType:       "
        ∷ s sec.type_name
        ∷ s "\n"
        ∷ [] in
      if is_empty sec.entries
      then head ++ s "Data:       <empty>\n" ∷ []
      else head
        ++ (s "\nData:\n"
            ∷ (secret_lines reveal sec.entries (sorted_keys sec.entries)
                ++ (if reveal
                    then []
                    else s
                        "\nValues are masked. Pass reveal=true (requires server --reveal-secrets) to show plaintext.\n"
                      ∷ [])))

  pub get_secret : Policy → GetSecretArgs → Prog Outcome
  unfolding render_secret
  get_secret p a = do
    guard (validate_name a.name)
    let ns : String = resolve_ns a.namespace
    guard (check_scope p ns false)
    guard (check_secret_reveal p a.reveal)
    call (attach "Secret" ns a.name false)
    sec ←
        answer ("get secret " <> ns <> "/" <> a.name)
          (call (get_secret_object (namespaced ns) a.name))
    ret (text (render_secret sec a.reveal))

pub record GetConfigMapArgs : Type 0 where
  pub namespace : String
  pub name : String

unfoldable pub get_configmap : Policy → GetConfigMapArgs → Prog Outcome
unfolding render_data
get_configmap p a = do
  guard (validate_name a.name)
  let ns : String = resolve_ns a.namespace
  guard (check_scope p ns false)
  call (attach "ConfigMap" ns a.name false)
  cm ←
      answer ("get configmap " <> ns <> "/" <> a.name)
        (call (get_configmap_object (namespaced ns) a.name))
  ret (text (render_data cm.entries cm.binary_entries))
