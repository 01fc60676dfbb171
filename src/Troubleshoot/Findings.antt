-- ===== src/Troubleshoot/Findings.antt =====
-- internal/tools/troubleshoot/diagnose.go: what a diagnosis reads, and the findings that it collects.
use go_kubernetes_mcp_server.Base.{
  ℕ, String, ◌==◌, Bool, true, false, ◌&&◌, ◌||◌, Option, none, some, List, [], ◌∷◌, ◌++◌,
  if◌then◌else◌, codes, nat_eq, is_empty,
}
use go_kubernetes_mcp_server.Tools.Handler.{Piece}
pub use go_kubernetes_mcp_server.Kube.Objects.{
  Condition, Waiting, Terminated, ContainerStatus, Taint, Event, PodObject, NodeObject,
}

pub data Severity : Type 0 where
  ok info warn critical : Severity

pub record Finding : Type 0 where
  pub severity : Severity
  pub text : List Piece

pub record Findings : Type 0 where
  pub items : List Finding
  pub pvcs : List String

abbrev pub new_findings : Findings
new_findings = record { items = []; pvcs = [] }

unfoldable pub add : Severity → List Piece → Findings → Findings
add sev text f = record f { items = f.items ++ record { severity = sev; text = text } ∷ [] }

unfoldable pub add_pvc_note : String → Findings → Findings
add_pvc_note name f = record f { pvcs = f.pvcs ++ name ∷ [] }

-- `strings.Contains(text, sub)`
is_prefix : List ℕ → List ℕ → Bool
is_prefix [] text = true
is_prefix (c ∷ sub) [] = false
is_prefix (c ∷ sub) (b ∷ text) = nat_eq c b && is_prefix sub text

contains_codes : List ℕ → List ℕ → Bool
unfolding is_prefix
contains_codes sub [] = is_empty sub
contains_codes sub (b ∷ text) = is_prefix sub (b ∷ text) || contains_codes sub text

unfoldable pub contains_text : String → String → Bool
unfolding contains_codes
contains_text text sub = contains_codes (codes sub) (codes text)

-- `getCondition` and `getNodeCondition`: the first condition of a type.
unfoldable pub get_condition : String → List Condition → Option Condition
get_condition type_name [] = none
get_condition type_name (c ∷ cs) =
    let rest = get_condition type_name cs in if c.type_name == type_name then some c else rest

abbrev pub is_true : Option Condition → Bool
is_true none = false
is_true (some c) = c.status == "True"

-- `isPodReady` and `isNodeReady`; both types are written "Ready".
unfoldable pub is_ready : List Condition → Bool
unfolding get_condition
is_ready conditions = is_true (get_condition "Ready" conditions)

-- The last test of both classifications.
unfoldable pub or_ok : List Piece → Findings → Findings
or_ok text f = if is_empty f.items then add ok text f else f
