-- ===== src/Workloads/Format.antt =====
-- internal/tools/workloads/format.go and helpers.go: what the tools show of pods and controllers.
use go_kubernetes_mcp_server.Base.{
  ℕ, ◌+◌, ◌%◌, String, ◌==◌, ◌&&◌, not, Option, none, some, List, [], ◌∷◌, ◌++◌, map, if◌then◌else◌,
  is_empty, ◌<>◌, join, show_nat, show_int, show_bool, int32,
}
use go_kubernetes_mcp_server.Kube.Objects.{ContainerStatus, Container, PodObject}
use go_kubernetes_mcp_server.Tools.Handler.{Piece, s, d, bytes}
use go_kubernetes_mcp_server.Tools.Util.{age_str}
use go_kubernetes_mcp_server.Tools.Listing.{format_map, trunc_cell, condition_table}

-- The loop of `podStatus`: the first reason to wait that tells something.
unfoldable pub waiting_reason : List ContainerStatus → Option String
waiting_reason [] = none
waiting_reason (cs ∷ rest) =
    let later = waiting_reason rest in
    elim cs.waiting [
      | none ↦ later
      | some w ↦
          if not (w.reason == "") && not (w.reason == "ContainerCreating")
          then some w.reason
          else later
    ]

unfoldable pub pod_status : PodObject → String
unfolding waiting_reason
pod_status p =
    if p.phase == "Failed"
    then "Failed"
    else if p.deleting
    then "Terminating"
    else elim (waiting_reason p.container_statuses) [ none ↦ p.phase | some reason ↦ reason ]

-- The two counters of `podReady`.
unfoldable pub count_ready : List ContainerStatus → ℕ × ℕ → ℕ × ℕ
count_ready [] n = n
count_ready (cs ∷ rest) (ready, total) =
    count_ready rest (if cs.ready then ready + 1 else ready, total + 1)

unfoldable pub pod_ready : PodObject → String
unfolding count_ready
pod_ready p = let n = count_ready p.container_statuses (0, 0) in show_nat n.0 <> "/" <> show_nat n.1

-- The sum of `podRestarts`, an int32.
unfoldable pub sum_restarts : List ContainerStatus → ℕ → ℕ
sum_restarts [] n = n
sum_restarts (cs ∷ rest) n = sum_restarts rest ((n + cs.restart_count) % 4294967296)

unfoldable pub pod_restarts : PodObject → String
unfolding sum_restarts
pod_restarts p = show_int (int32 (sum_restarts p.container_statuses 0))

unfoldable pub node_name_of : PodObject → String
node_name_of p = if p.node_name == "" then "<none>" else p.node_name

unfoldable pub container_status : List ContainerStatus → String → Option ContainerStatus
container_status [] name = none
container_status (cs ∷ rest) name =
    let later = container_status rest name in if cs.name == name then some cs else later

-- The `switch` of `describeContainer`.
unfoldable pub container_state : ContainerStatus → List Piece
container_state cs = elim cs.running [
  | some since ↦ s "    State:      Running (since " ∷ s since ∷ s ")\n" ∷ []
  | none ↦ elim cs.waiting [
    | some w ↦
        s "    State:      Waiting ("
        ∷ s w.reason
        ∷ s ") — "
        ∷ bytes (trunc_cell 80 w.message)
        ∷ s "\n"
        ∷ []
    | none ↦ elim cs.terminated [
      | some t ↦
          s "    State:      Terminated ("
          ∷ s t.reason
          ∷ s ") exit "
          ∷ d t.exit_code
          ∷ s " — "
          ∷ bytes (trunc_cell 80 t.message)
          ∷ s "\n"
          ∷ []
      | none ↦ []
    ]
  ]
]

unfoldable pub describe_container : Container → Option ContainerStatus → List Piece
unfolding container_state
describe_container c found =
    (s "  " ∷ s c.name ∷ s ":\n    Image:      " ∷ s c.image ∷ s "\n" ∷ [])
    ++ (elim found [
      | none ↦ []
      | some cs ↦
          container_state cs
          ++ (s "    Ready:      "
              ∷ s (show_bool cs.ready)
              ∷ s "\n    Restarts:   "
              ∷ d (int32 cs.restart_count)
              ∷ s "\n"
              ∷ [])
    ]
        ++ (if is_empty c.ports
            then []
            else s "    Ports:      "
              ∷ s (join ", " (map (λ port. show_int port.0 <> "/" <> port.1) c.ports))
              ∷ s "\n"
              ∷ []))

unfoldable pub describe_containers : List ContainerStatus → List Container → List Piece
unfolding describe_container container_status
describe_containers statuses [] = []
describe_containers statuses (c ∷ cs) =
    describe_container c (container_status statuses c.name) ++ describe_containers statuses cs

-- A line that stands only for a value that is not empty.
abbrev pub optional : String → String → List Piece
optional head value = if value == "" then [] else s head ∷ s value ∷ s "\n" ∷ []

unfoldable pub describe_pod : PodObject → List Piece
unfolding describe_containers pod_status pod_ready pod_restarts node_name_of
describe_pod p =
    (s "Name:              "
      ∷ s p.name
      ∷ s "\nNamespace:         "
      ∷ s p.namespace
      ∷ s "\nStatus:            "
      ∷ s (pod_status p)
      ∷ s "\nReady:             "
      ∷ s (pod_ready p)
      ∷ s "\nRestarts:          "
      ∷ s (pod_restarts p)
      ∷ s "\nNode:              "
      ∷ s (node_name_of p)
      ∷ s "\n"
      ∷ [])
    ++ (optional "Pod IP:            " p.pod_ip
        ++ (optional "Host IP:           " p.host_ip
            ++ (s "Age:               "
                ∷ s (age_str p.age)
                ∷ s "\n"
                ∷ ((if is_empty p.labels
                      then []
                      else s "Labels:            " ∷ s (format_map p.labels) ∷ s "\n" ∷ [])
                    ++ (optional "Service Account:   " p.service_account_name
                        ++ ((if is_empty p.containers
                              then []
                              else s "\nContainers:\n"
                                ∷ describe_containers p.container_statuses p.containers)
                            ++ (if is_empty p.conditions
                                then []
                                else s "\nConditions:\n"
                                  ∷ bytes (condition_table 70 p.conditions)
                                  ∷ [])))))))
