-- ===== src/Network/Slices.antt =====
-- internal/tools/network/helpers.go and connectivity.go: what is read of EndpointSlices, which come as
-- objects of the dynamic client.
use go_kubernetes_mcp_server.Base.{
  ℕ, ◌+◌, pos, String, Bool, Option, none, some, List, [], ◌∷◌, ◌++◌, map, nat_eq, if◌then◌else◌,
  ◌<>◌, join, show_int, show_bool, before, sort_by,
}
use go_kubernetes_mcp_server.Kube.Dynamic.{
  Json, Items, Fields, null, boolean, number, string, array, object, nil, cons, end, field, at,
  as_object, as_array, as_boolean, as_string,
}
use go_kubernetes_mcp_server.Tools.Handler.{Piece, s, d}

-- `%v` of a value: a map in the order of its keys.
unfoldable mutual
  pub show_any : Json → String
  show_any null = "<nil>"
  show_any (boolean b) = show_bool b
  show_any (number n) = show_int n
  show_any (string t) = t
  show_any (array xs) = "[" <> join " " (show_items xs) <> "]"
  show_any (object fs) =
      "map["
      <> join " " (map (λ x. x.0 <> ":" <> x.1) (sort_by (λ a b. before a.0 b.0) (show_fields fs)))
      <> "]"

  pub show_items : Items → List String
  show_items nil = []
  show_items (cons x xs) = show_any x ∷ show_items xs

  pub show_fields : Fields → List (String × String)
  show_fields end = []
  show_fields (field k x fs) = (k, show_any x) ∷ show_fields fs

-- `unstructured.NestedSlice(us.Object, "endpoints")` and the type assertion of the same key.
unfoldable pub endpoints_of : Json → Items
endpoints_of slice = as_array (at "endpoints" (as_object slice))

unfoldable pub addresses_of : Json → Items
addresses_of endpoint = as_array (at "addresses" (as_object endpoint))

unfoldable pub is_marked_ready : Json → Bool
is_marked_ready endpoint = as_boolean (at "ready" (as_object endpoint))

unfoldable pub count_strings : Items → ℕ
count_strings nil = 0
count_strings (cons x xs) = (elim (as_string x) [ none ↦ 0 | some t ↦ 1 ]) + count_strings xs

-- The two loops that count the addresses.
unfoldable pub count_endpoint_addresses : Items → ℕ
unfolding count_strings addresses_of
count_endpoint_addresses nil = 0
count_endpoint_addresses (cons x xs) = count_strings (addresses_of x) + count_endpoint_addresses xs

unfoldable pub total_addresses : List Json → ℕ
unfolding count_endpoint_addresses endpoints_of
total_addresses [] = 0
total_addresses (slice ∷ slices) =
    count_endpoint_addresses (endpoints_of slice) + total_addresses slices

unfoldable pub slice_ports : Items → List String
unfolding show_any
slice_ports nil = []
slice_ports (cons x xs) =
    (show_any (at "port" (as_object x)) <> "/" <> show_any (at "name" (as_object x)))
    ∷ slice_ports xs

-- The lines of one endpoint; `none` where `a.(string)` panics.
unfoldable pub slice_lines : String → String → Items → Option (List Piece)
slice_lines state ports nil = some []
slice_lines state ports (cons x xs) =
    let later = slice_lines state ports xs in
    elim (as_string x) [
      | none ↦ none
      | some address ↦ elim later [
        | none ↦ none
        | some ls ↦ some (s "  " ∷ s state ∷ s " " ∷ s address ∷ s " (" ∷ s ports ∷ s ")\n" ∷ ls)
      ]
    ]

abbrev pub both : Option (List Piece) → Option (List Piece) → Option (List Piece)
both none y = none
both (some xs) none = none
both (some xs) (some ys) = some (xs ++ ys)

unfoldable pub endpoint_slice_lines : String → Items → Option (List Piece)
unfolding slice_lines is_marked_ready addresses_of
endpoint_slice_lines ports nil = some []
endpoint_slice_lines ports (cons x xs) =
    both (slice_lines (if is_marked_ready x then "READY" else "NOTREADY") ports (addresses_of x))
      (endpoint_slice_lines ports xs)

unfoldable pub all_slice_lines : List Json → Option (List Piece)
unfolding endpoint_slice_lines slice_ports endpoints_of
all_slice_lines [] = some []
all_slice_lines (slice ∷ slices) =
    both
      (endpoint_slice_lines (join "," (slice_ports (as_array (at "ports" (as_object slice)))))
        (endpoints_of slice))
      (all_slice_lines slices)

unfoldable pub render_endpoint_slices : String → String → List Json → Option (List Piece)
unfolding total_addresses all_slice_lines
render_endpoint_slices svc ns slices =
    both
      (some (
        s "EndpointSlices for service "
        ∷ s ns
        ∷ s "/"
        ∷ s svc
        ∷ s ": "
        ∷ d (pos (total_addresses slices))
        ∷ s " ready addresses\n\n"
        ∷ []))
      (both (all_slice_lines slices) (
        some (
          if nat_eq (total_addresses slices) 0
          then s
              "\nNo ready addresses. Ensure pods exist, are Ready, and match the Service selector.\n"
            ∷ []
          else [])))

-- The count of `readyEndpoints` over the slices: endpoints, not addresses.
unfoldable pub count_ready_endpoints : Items → ℕ
unfolding is_marked_ready
count_ready_endpoints nil = 0
count_ready_endpoints (cons x xs) = (if is_marked_ready x then 1 else 0) + count_ready_endpoints xs

unfoldable pub count_slices : List Json → ℕ
unfolding count_ready_endpoints endpoints_of
count_slices [] = 0
count_slices (slice ∷ slices) = count_ready_endpoints (endpoints_of slice) + count_slices slices
