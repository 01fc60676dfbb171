-- ===== src/Kube/Rules.antt =====
-- The audit record and the interpretation of a handler against a server, and a predicate on the acts
-- of every run. The record is what `Begin` puts on the context and `Attach` changes
-- (internal/audit/audit.go).
pub mod Sound
use go_kubernetes_mcp_server.Base.{
  ℕ, String, Bool, true, false, Option, none, some, List, [], ◌∷◌, ◌≡◌,
}
use go_kubernetes_mcp_server.Kube.{
  Scope, namespaced, cluster, Act, attach, update_scale, create, update, patch, apply, delete,
  evict, exec, add_ephemeral, start_cleanup, Reply, Prog, ret, call, Body, namespace_object,
  configmap, secret, service, debug_pod, unschedulable, restarted_at, template, metadata, raw,
  Document,
}

-- What `Attach` sets of an audit record.
pub record Attached : Type 0 where
  pub kind : String
  pub namespace : String
  pub name : String
  pub dry_run : Bool

abbrev pub unattached : Attached
unattached = record { kind = ""; namespace = ""; name = ""; dry_run = false }

-- The record after an act: `Attach` overwrites its four fields, nothing else changes them.
abbrev pub after : Attached → Act → Attached
after r (attach kind namespace name dry_run) = record {
  kind = kind;
  namespace = namespace;
  name = name;
  dry_run = dry_run;
}
after r _ = r

-- `P` holds of every act of every run, with the audit record that stands when it is made.
pub data Acts {ℓ} {A : Type ℓ} (P : Attached → Act → Type 0) : Attached → Prog A → Type ℓ where
  done : {r : Attached} {x : A} → Acts P r (ret x)
  act :
      {r : Attached} {a : Act} {f : Reply a → Prog A}
      → P r a
      → ((x : Reply a) → Acts P (after r a) (f x))
      → Acts P r (call a f)

-- A run against a server: any state, and any answers. The trace pairs each act with the record.
unfoldable pub run {ℓ} :
    {A : Type ℓ} {S : Type 0}
    → (S → (a : Act) → S × Reply a)
    → S
    → Attached
    → Prog A
    → A × List (Attached × Act)
run serve st r (ret x) = (x, [])
run serve st r (call a f) =
    let answered = serve st a in
    let rest = run serve answered.0 (after r a) (f answered.1) in (rest.0, (r, a) ∷ rest.1)

-- What an act changes in the cluster or runs in it, the deletion that it schedules included.
pub data Effect : Type 0 where
  reads : Effect
  writes : Scope → String → Bool → Effect

abbrev pub effect : Act → Effect
effect (update_scale _ sc name _ dry) = writes sc name dry
effect (create _ sc name _ dry) = writes sc name dry
effect (update _ sc name _ dry) = writes sc name dry
effect (patch _ sc name _ _ dry) = writes sc name dry
effect (apply _ sc name _ _ dry) = writes sc name dry
effect (delete _ sc name _ _ dry) = writes sc name dry
effect (evict sc name) = writes sc name false
effect (exec sc name _ _) = writes sc name false
effect (add_ephemeral sc name _) = writes sc name false
effect (start_cleanup sc name _) = writes sc name false
effect _ = reads
