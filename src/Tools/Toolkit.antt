-- ===== src/Tools/Toolkit.antt =====
-- internal/tools/toolkit.go: what stands around every handler. The handler is the parameter `ended`:
-- what its call comes to, with the audit record as it has left it. Texts are bytes; `render` is
-- the format of an error, and `marker` is `omitted_marker` of Rpc/Truncate.
mod Laws
mod Slots
mod Tests
use go_kubernetes_mcp_server.Base.{
  ℕ, ℤ, String, Bool, true, false, not, Option, none, some, List, [], ◌∷◌, map, if◌then◌else◌,
}
use go_kubernetes_mcp_server.Err.{Err, server_busy, internal_error, deadline_exceeded, panicked}
use go_kubernetes_mcp_server.Security.{
  Policy, Verb, read, write, destructive, debug, can_mutate, can_destroy, can_debug,
}
use go_kubernetes_mcp_server.Rpc.Truncate.{truncate_text}
use go_kubernetes_mcp_server.Audit.{Record, begin, Line, finish}

-- A piece of content is a text, or another kind that `truncate` passes over.
pub data Content : Type 0 where
  text_content : List ℕ → Content
  other_content : ℕ → Content

pub record CallToolResult : Type 0 where
  pub is_error : Bool
  pub content : List Content

-- `rpc.TextResult` and `rpc.ErrorResult`
unfoldable pub text_result : List ℕ → CallToolResult
text_result text = record { is_error = false; content = text_content text ∷ [] }

pub error_result : List ℕ → CallToolResult
error_result text = record { is_error = true; content = text_content text ∷ [] }

abbrev pub truncate_content : (ℕ → List ℕ) → ℤ → Content → Content
truncate_content marker max_bytes (text_content text) =
    text_content (truncate_text marker text max_bytes)
truncate_content marker max_bytes (other_content n) = other_content n

pub truncate : (ℕ → List ℕ) → ℤ → Option CallToolResult → Option CallToolResult
truncate marker max_bytes none = none
truncate marker max_bytes (some res) =
    some (record res { content = map (truncate_content marker max_bytes) res.content })

-- What the handler's call comes to: its two results, or a panic with its value.
pub data Ended : Type 0 where
  returned : Option CallToolResult → Option Err → Ended
  panic : String → Ended

-- A call of a wrapped handler: it gets no slot in time, or it runs.
pub data Run : Type 0 where
  no_slot : Run
  ran : Record → Ended → Run

module _ (render : Err → List ℕ) (marker : ℕ → List ℕ) (max_bytes : ℤ) where
  -- The result for the client, and the lines that the audit log gets.
  pub respond : ℕ → Record → Ended → Option CallToolResult × List Line
  unfolding truncate error_result
  respond elapsed rec (returned res none) =
      (truncate marker max_bytes res, finish rec elapsed none ∷ [])
  respond elapsed rec (returned res (some err)) =
      (some (error_result (render err)), finish rec elapsed (some err) ∷ [])
  respond elapsed rec (panic value) =
      (some (error_result (render (internal_error value))), finish rec elapsed (some panicked) ∷ [])

  pub wrap : String → Verb → ℕ → Run → Option CallToolResult × List Line
  unfolding respond
  wrap name verb elapsed no_slot = (
    some (error_result (render server_busy)),
    finish (begin name verb) elapsed (some deadline_exceeded) ∷ [],
  )
  wrap name verb elapsed (ran rec ended) = respond elapsed rec ended

-- `ToolDesc.IsGated`
unfoldable pub is_gated : Verb → Policy → Bool
is_gated destructive p = not (can_destroy p)
is_gated write p = not (can_mutate p)
is_gated debug p = not (can_debug p)
is_gated read p = false
