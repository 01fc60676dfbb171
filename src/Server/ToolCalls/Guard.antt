-- ===== src/Server/ToolCalls/Guard.antt =====
-- What a configuration lets its registered tools do.
use go_kubernetes_mcp_server.Base.{
  ℕ, ℤ, String, ◌≡◌, ◌≢◌, refl, true, false, Option, List, All, All-imply, All-always, IsIn, arith,
}
use go_kubernetes_mcp_server.Config.{Config}
use go_kubernetes_mcp_server.Security.{
  Policy, Verb, read, write, destructive, debug, from_config, can_mutate, can_destroy, can_debug,
}
use go_kubernetes_mcp_server.Kube.{
  Act, Reply, attach, attach_args, now, rand_suffix, server_groups_and_resources, list_pods,
  list_replica_sets, get_annotations, get_object, get_scale, get_secret_object,
  get_configmap_object, list_objects, get_one, get_json, server_version, stream_logs, lookup_ip,
  dial, update_scale, create, update, patch, apply, delete, evict, exec, add_ephemeral,
  start_cleanup,
}
use go_kubernetes_mcp_server.Kube.Rules.{Attached, unattached, run, Effect, reads, writes, effect}
use go_kubernetes_mcp_server.Tools.Toolkit.{is_gated}
use go_kubernetes_mcp_server.Tools.Listing.Reads.{IsRead}
use go_kubernetes_mcp_server.Operations.Manifest.{Decoded}
use go_kubernetes_mcp_server.Operations.Calls.{
  Call, apply_manifest_call, patch_call, scale_call, rollout_restart_call, rollout_undo_call,
  label_call, annotate_call, create_namespace_call, create_configmap_call, update_configmap_call,
  create_secret_call, create_service_call, delete_manifest_call, exec_command_call,
  add_ephemeral_container_call, run_debug_pod_call,
}
use go_kubernetes_mcp_server.Server.ReadCalls.{Outside, handle_read-IsRead, unchecked}
use go_kubernetes_mcp_server.Server.Register.{register}
use go_kubernetes_mcp_server.Server.Register.Catalogue.{register-is_gated}
use go_kubernetes_mcp_server.Server.ToolCalls.{
  ToolCall, read_call, write_call, delete_pod_call, cordon_node_call, uncordon_node_call,
  drain_node_call, write_verb, tool_of, handle_tool,
}

-- What a tool of a verb may do: a write only under the flag of its verb.
abbrev pub Guarded : Policy → Verb → Effect → Type 0
Guarded p verb reads = Unit
Guarded p read (writes sc name dry) = ⊥
Guarded p write (writes sc name dry) = p.allow_writes ≡ true
Guarded p destructive (writes sc name dry) = p.allow_destructive ≡ true
Guarded p debug (writes sc name dry) = p.allow_debug ≡ true

-- A read is allowed to a tool of any verb.
IsRead-reads :
    (p : Policy) (extra : Option String) (r : Attached) (a : Act)
    → IsRead p extra r a
    → effect a ≡ reads
IsRead-reads p extra r (attach _ _ _ _) h = refl
IsRead-reads p extra r (attach_args _) h = refl
IsRead-reads p extra r now h = refl
IsRead-reads p extra r rand_suffix h = refl
IsRead-reads p extra r server_groups_and_resources h = refl
IsRead-reads p extra r (list_pods _) h = refl
IsRead-reads p extra r (list_replica_sets _) h = refl
IsRead-reads p extra r (get_annotations _ _ _) h = refl
IsRead-reads p extra r (get_object _ _ _) h = refl
IsRead-reads p extra r (get_scale _ _ _) h = refl
IsRead-reads p extra r (get_secret_object _ _) h = refl
IsRead-reads p extra r (get_configmap_object _ _) h = refl
IsRead-reads p extra r (list_objects _ _ _) h = refl
IsRead-reads p extra r (get_one _ _ _) h = refl
IsRead-reads p extra r (get_json _ _ _) h = refl
IsRead-reads p extra r server_version h = refl
IsRead-reads p extra r (stream_logs _ _ _) h = refl
IsRead-reads p extra r (lookup_ip _) h = refl
IsRead-reads p extra r (dial _ _) h = refl
IsRead-reads p extra r (update_scale _ _ _ _ _) h = elim h [ ]
IsRead-reads p extra r (create _ _ _ _ _) h = elim h [ ]
IsRead-reads p extra r (update _ _ _ _ _) h = elim h [ ]
IsRead-reads p extra r (patch _ _ _ _ _ _) h = elim h [ ]
IsRead-reads p extra r (apply _ _ _ _ _ _) h = elim h [ ]
IsRead-reads p extra r (delete _ _ _ _ _ _) h = elim h [ ]
IsRead-reads p extra r (evict _ _) h = elim h [ ]
IsRead-reads p extra r (exec _ _ _ _) h = elim h [ ]
IsRead-reads p extra r (add_ephemeral _ _ _) h = elim h [ ]
IsRead-reads p extra r (start_cleanup _ _ _) h = elim h [ ]

-- A tool that is registered has the flag of its verb, whatever it does.
abbrev FlagOn : Policy → Verb → Type 0
FlagOn p read = Unit
FlagOn p write = p.allow_writes ≡ true
FlagOn p destructive = p.allow_destructive ≡ true
FlagOn p debug = p.allow_debug ≡ true

is_gated-FlagOn : (p : Policy) (v : Verb) → is_gated v p ≡ false → FlagOn p v
unfolding is_gated can_mutate can_destroy can_debug
is_gated-FlagOn p read h = tt
is_gated-FlagOn p write h = ground arith
is_gated-FlagOn p destructive h = ground arith
is_gated-FlagOn p debug h = ground arith

-- With the flag of a verb that is not `read`, every effect is guarded.
FlagOn-Guarded : (p : Policy) (v : Verb) → FlagOn p v → v ≢ read → (x : Effect) → Guarded p v x
FlagOn-Guarded p v h n reads = tt
FlagOn-Guarded p read h n (writes sc name dry) = n refl
FlagOn-Guarded p write h n (writes sc name dry) = h
FlagOn-Guarded p destructive h n (writes sc name dry) = h
FlagOn-Guarded p debug h n (writes sc name dry) = h

reads-Guarded : (p : Policy) (v : Verb) (x : Effect) → x ≡ reads → Guarded p v x
reads-Guarded p v reads e = tt
reads-Guarded p v (writes sc name dry) e = cc

write_verb-ne_read : (c : Call) → write_verb c ≢ read
write_verb-ne_read (apply_manifest_call a) e = cc
write_verb-ne_read (patch_call a) e = cc
write_verb-ne_read (scale_call a) e = cc
write_verb-ne_read (rollout_restart_call a) e = cc
write_verb-ne_read (rollout_undo_call a) e = cc
write_verb-ne_read (label_call a) e = cc
write_verb-ne_read (annotate_call a) e = cc
write_verb-ne_read (create_namespace_call a) e = cc
write_verb-ne_read (create_configmap_call a) e = cc
write_verb-ne_read (update_configmap_call a) e = cc
write_verb-ne_read (create_secret_call a) e = cc
write_verb-ne_read (create_service_call a) e = cc
write_verb-ne_read (delete_manifest_call a) e = cc
write_verb-ne_read (exec_command_call a) e = cc
write_verb-ne_read (add_ephemeral_container_call a) e = cc
write_verb-ne_read (run_debug_pod_call a) e = cc

from_config-implies :
    (cfg : Config)
    → (from_config cfg).allow_destructive ≡ true
    → (from_config cfg).allow_writes ≡ true
unfolding from_config
from_config-implies cfg h = ground arith

gated-is_read :
    (cfg : Config) (v : Verb)
    → cfg.allow_writes ≡ false
    → cfg.allow_destructive ≡ false
    → cfg.allow_debug ≡ false
    → is_gated v (from_config cfg) ≡ false
    → v ≡ read
unfolding from_config is_gated can_mutate can_destroy can_debug
gated-is_read cfg v w d g h = ground arith

Guarded-reads : (p : Policy) (v : Verb) (x : Effect) → v ≡ read → Guarded p v x → x ≡ reads
Guarded-reads p v reads e h = refl
Guarded-reads p read (writes sc name dry) e h = elim h [ ]
Guarded-reads p write (writes sc name dry) e h = cc
Guarded-reads p destructive (writes sc name dry) e h = cc
Guarded-reads p debug (writes sc name dry) e h = cc

module _ (o : Outside) (decode : List ℕ → Decoded) (max_manifest : ℕ)
    (parse_dur : String → Option ℤ) {S : Type 0} (serve : S → (a : Act) → S × Reply a)
    (st : S) where
  trace_of : Policy → ToolCall → List (Attached × Act)
  trace_of p c = (run serve st unattached (handle_tool o decode max_manifest parse_dur p c)).1

  always_Guarded :
      (p : Policy) (c : ToolCall)
      → FlagOn p (tool_of c).1
      → (tool_of c).1 ≢ read
      → All (λ t. Guarded p (tool_of c).1 (effect t.1)) (trace_of p c)
  unfolding trace_of
  always_Guarded p c h n = All-always _ _ λ t. FlagOn-Guarded p (tool_of c).1 h n (effect t.1)

  tool-Guarded :
      (p : Policy) (c : ToolCall)
      → FlagOn p (tool_of c).1
      → All (λ t. Guarded p (tool_of c).1 (effect t.1)) (trace_of p c)
  unfolding trace_of
  tool-Guarded p (read_call c) h =
      All-imply _ _ _
        (λ t k. reads-Guarded p read (effect t.1) (IsRead-reads p (unchecked c) t.0 t.1 k))
        (handle_read-IsRead serve st o p c)
  tool-Guarded p (write_call c) h = always_Guarded p (write_call c) h (write_verb-ne_read c)
  tool-Guarded p (delete_pod_call a) h = always_Guarded p (delete_pod_call a) h λ e. cc
  tool-Guarded p (cordon_node_call a) h = always_Guarded p (cordon_node_call a) h λ e. cc
  tool-Guarded p (uncordon_node_call a) h = always_Guarded p (uncordon_node_call a) h λ e. cc
  tool-Guarded p (drain_node_call a) h = always_Guarded p (drain_node_call a) h λ e. cc

  -- Whatever the server answers, a call of a tool that a configuration has registered writes only under
  -- the flag of the verb under which that tool is registered, and writes nothing where the verb is
  -- `read`. This holds of the calls of all tools but port_forward, also of those whose handlers do not
  -- check the flag themselves.
  pub register-Guarded :
      (cfg : Config) (c : ToolCall)
      → IsIn (tool_of c) (register cfg (from_config cfg))
      → All
          (λ t. Guarded (from_config cfg) (tool_of c).1 (effect t.1))
          (run serve st unattached
            (handle_tool o decode max_manifest parse_dur (from_config cfg) c)).1
  unfolding trace_of
  register-Guarded cfg c h = tool-Guarded (from_config cfg) c (
      is_gated-FlagOn (from_config cfg) (tool_of c).1
        (register-is_gated cfg (from_config cfg) (tool_of c) (from_config-implies cfg) h))

  -- A configuration that allows neither writes nor destructive tools nor debugging registers tools that
  -- read only, and no run of one of them (port_forward aside, which is not registered then) changes
  -- anything in the cluster or runs anything in it.
  pub register-reads :
      (cfg : Config) (c : ToolCall)
      → cfg.allow_writes ≡ false
      → cfg.allow_destructive ≡ false
      → cfg.allow_debug ≡ false
      → IsIn (tool_of c) (register cfg (from_config cfg))
      → ((tool_of c).1 ≡ read)
        × All
            (λ t. effect t.1 ≡ reads)
            (run serve st unattached
              (handle_tool o decode max_manifest parse_dur (from_config cfg) c)).1
  register-reads cfg c w d g h =
      let is_read =
        gated-is_read cfg (tool_of c).1 w d g
          (register-is_gated cfg (from_config cfg) (tool_of c) (from_config-implies cfg) h) in
      (
        is_read,
        All-imply _ _ _
            (λ t k. Guarded-reads (from_config cfg) (tool_of c).1 (effect t.1) is_read k)
            (register-Guarded cfg c h),
      )
