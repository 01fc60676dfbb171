-- ===== src/Debug/Tests.antt =====
-- Port forwards on concrete calls.
use go_kubernetes_mcp_server.Base.{
  ◌≤◌, ℤ, pos, ◌≡◌, ◌≢◌, refl, true, String, Option, none, some, [], ◌∷◌, length, if◌then◌else◌,
}
use go_kubernetes_mcp_server.Config.{defaults}
use go_kubernetes_mcp_server.Security.{Policy, from_config}
use go_kubernetes_mcp_server.Debug.Forward.{
  PortForwardArgs, ready, port_forward, acquire_forward, max_concurrent_forwards,
}
use go_kubernetes_mcp_server.Debug.Forward.Slots.{
  Forwards, acquired, opened, Reach, here, next, idle, open_tunnel, at_most_five,
  port_forward-count,
}
use go_kubernetes_mcp_server.Debug.Forward.Spec.{port_forward-returns}

abbrev debugging : Policy
debugging = from_config (record defaults { allow_debug = true })

abbrev half_a_day : String → Option ℤ
half_a_day text = some (pos 43200000000000)

abbrev forward_web : PortForwardArgs
forward_web = record { namespace = "shop"; pod = "web-1"; port = "8080"; duration = "12h" }

port_forward-returns_example :
    (port_forward half_a_day (λ n. "1h0m0s") debugging forward_web ready 4).2 ≢ none
port_forward-returns_example =
    port_forward-returns half_a_day (λ n. "1h0m0s") debugging forward_web ready 4

port_forward-count_example :
    let (count, tunnel, result, acts) =
      port_forward half_a_day (λ n. "1h0m0s") debugging forward_web ready 4 in
    count ≡ (if tunnel then 5 else 4)
port_forward-count_example =
    port_forward-count half_a_day (λ n. "1h0m0s") debugging forward_web ready 4

abbrev one_open : Forwards
one_open = record { count = 1; holders = open_tunnel ∷ [] }

one_open-Reach : Reach idle one_open
unfolding acquire_forward
one_open-Reach = next (next here (acquired 1 refl)) (opened [] [] refl)

at_most_five_example :
    (one_open.count ≡ length one_open.holders)
    × (length one_open.holders ≤ max_concurrent_forwards)
    × (acquire_forward one_open.count ≡ none → length one_open.holders ≡ max_concurrent_forwards)
at_most_five_example = at_most_five one_open-Reach
