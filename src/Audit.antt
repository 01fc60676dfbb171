-- ===== src/Audit.antt =====
-- internal/audit/audit.go: the record of a tool call and the line that it is logged as. The clock is a
-- parameter: `elapsed` is `time.Since(start)`. The record is shared through the context by pointer, so
-- `attach` changes the record that `finish` logs.
use go_kubernetes_mcp_server.Base.{
  ℕ, String, ◌==◌, Bool, true, false, not, Option, none, some, List, [], ◌∷◌, ◌++◌, is_empty,
  StringMap, insert, if◌then◌else◌,
}
use go_kubernetes_mcp_server.Err.{Err}
use go_kubernetes_mcp_server.Security.{Verb, read, write, destructive, debug}
use go_kubernetes_mcp_server.Kube.{Value}

pub record Record : Type 0 where
  pub tool : String
  pub verb : Verb
  pub kind : String
  pub namespace : String
  pub name : String
  pub dry_run : Bool
  pub success : Bool
  pub duration : ℕ
  pub error : Option Err
  pub args : StringMap Value

-- What `Begin` puts on the context.
unfoldable pub begin : String → Verb → Record
begin tool verb = record {
  tool = tool;
  verb = verb;
  kind = "";
  namespace = "";
  name = "";
  dry_run = false;
  success = false;
  duration = 0;
  error = none;
  args = [];
}

unfoldable pub attach : Record → String → String → String → Bool → Record
attach rec kind namespace name dry_run = record rec {
  kind = kind;
  namespace = namespace;
  name = name;
  dry_run = dry_run;
}

-- `for k, v := range args { rec.Args[k] = v }`
unfoldable pub attach_args : Record → StringMap Value → Record
attach_args rec [] = rec
attach_args rec ((k, v) ∷ args) = attach_args (record rec { args = insert k v rec.args }) args

pub data Level : Type 0 where
  info warn : Level

pub data Attr : Type 0 where
  text_attr : String → String → Attr
  verb_attr : Verb → Attr
  bool_attr : String → Bool → Attr
  duration_attr : ℕ → Attr
  error_attr : Err → Attr
  args_attr : StringMap Value → Attr

pub record Line : Type 0 where
  pub level : Level
  pub message : String
  pub attrs : List Attr

abbrev unless_empty : String → String → List Attr
unless_empty key x = if not (x == "") then text_attr key x ∷ [] else []

abbrev level_of : Verb → Level
level_of destructive = warn
level_of _ = info

abbrev message_of : Verb → String
message_of destructive = "tool call (destructive)"
message_of write = "tool call (mutating)"
message_of debug = "tool call (mutating)"
message_of read = "tool call"

abbrev error_of : Option Err → List Attr
error_of none = []
error_of (some err) = error_attr err ∷ []

pub emit : Record → Line
emit rec = record {
  level = level_of rec.verb;
  message = message_of rec.verb;
  attrs =
      (text_attr "tool" rec.tool
        ∷ verb_attr rec.verb
        ∷ bool_attr "success" rec.success
        ∷ duration_attr rec.duration
        ∷ [])
      ++ (unless_empty "kind" rec.kind
          ++ (unless_empty "namespace" rec.namespace
              ++ (unless_empty "name" rec.name
                  ++ ((if rec.dry_run then bool_attr "dry_run" true ∷ [] else [])
                      ++ (error_of rec.error
                          ++ (if not (is_empty rec.args) then args_attr rec.args ∷ [] else []))))));
}

abbrev is_nil : Option Err → Bool
is_nil none = true
is_nil (some _) = false

-- The function that `Begin` returns: it completes the record and logs it.
unfoldable pub finish : Record → ℕ → Option Err → Line
unfolding emit
finish rec elapsed err = emit (record rec { duration = elapsed; success = is_nil err; error = err })
