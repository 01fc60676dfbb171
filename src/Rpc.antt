-- ===== src/Rpc.antt =====
-- internal/rpc: validation of arguments (args.go).
mod Regex
pub mod Valid
pub mod Truncate
pub mod Table
mod Tests
use go_kubernetes_mcp_server.Base.{
  ℕ, String, ◌==◌, Bool, true, false, ◌||◌, not, Option, none, some, List, [], ◌∷◌, ltb,
  if◌then◌else◌, contains_any, StringMap, has, codes,
}
use Prim.Native.String.{len}
use go_kubernetes_mcp_server.Err.{
  Err, name_required, invalid_name, invalid_namespace, label_selector_newlines,
  selector_token_chars,
}
unfoldable pub use Regex.{dns_label, dns_subdomain, matches}

unfoldable pub resolve_namespace : String → String
resolve_namespace ns = if ns == "" then "default" else ns

unfoldable pub validate_name : String → Option Err
validate_name name =
    if name == ""
    then some name_required
    else if ltb 253 (len name) || not (matches dns_subdomain (codes name))
    then some (invalid_name name)
    else none

pub validate_namespace : String → Option Err
validate_namespace ns =
    if ns == ""
    then none
    else if ltb 63 (len ns) || not (matches dns_label (codes ns))
    then some (invalid_namespace ns)
    else none

unfoldable pub validate_label_selector : String → Option Err
validate_label_selector sel =
    if sel == ""
    then none
    else if contains_any sel (10 ∷ 13 ∷ [])
    then some label_selector_newlines
    else none

-- The characters that `ValidateSelectorToken` refuses: ,=!<>()"'\ and blank, tab, line feed, return.
abbrev pub selector_chars : List ℕ
selector_chars =
    b',' ∷ b'=' ∷ b'!' ∷ b'<' ∷ b'>' ∷ b'(' ∷ b')' ∷ 34 ∷ 39 ∷ 92 ∷ 32 ∷ 9 ∷ 10 ∷ 13 ∷ []

pub validate_selector_token : String → Option Err
validate_selector_token v =
    if v == ""
    then none
    else if contains_any v selector_chars
    then some (selector_token_chars v)
    else none

abbrev pub privileged_namespaces : StringMap Bool
privileged_namespaces =
    ("kube-system", true) ∷ ("kube-public", true) ∷ ("kube-node-lease", true) ∷ []

unfoldable pub is_privileged_namespace : String → Bool
is_privileged_namespace ns = has ns privileged_namespaces
