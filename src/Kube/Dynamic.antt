-- ===== src/Kube/Dynamic.antt =====
-- Objects of the dynamic client: the values of JSON, as nested maps and slices of Go.
use go_kubernetes_mcp_server.Base.{ℤ, String, ◌==◌, Bool, Option, none, some, if◌then◌else◌}

mutual
  pub data Json : Type 0 where
    null : Json
    boolean : Bool → Json
    number : ℤ → Json
    string : String → Json
    array : Items → Json
    object : Fields → Json

  pub data Items : Type 0 where
    nil : Items
    cons : Json → Items → Items

  pub data Fields : Type 0 where
    end : Fields
    field : String → Json → Fields → Fields

-- `m[key]` of a map; a missing key reads as nil.
unfoldable pub at : String → Fields → Json
at key end = null
at key (field k v fs) = let rest = at key fs in if k == key then v else rest

-- The type assertions `v.(map[string]any)`, `v.([]any)`, `v.(bool)` and `v.(string)` of two results:
-- the zero value where the type is another. A nil map reads as an empty one.
abbrev pub as_object : Json → Fields
as_object (object fs) = fs
as_object _ = end

abbrev pub as_array : Json → Items
as_array (array xs) = xs
as_array _ = nil

abbrev pub as_boolean : Json → Bool
as_boolean (boolean b) = b
as_boolean _ = Bool.false

abbrev pub as_string : Json → Option String
as_string (string t) = some t
as_string _ = none
