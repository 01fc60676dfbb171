-- ===== src/Kube/Rules/Sound.antt =====
-- What `Acts` says of a handler holds of the trace of each of its runs.
use go_kubernetes_mcp_server.Base.{All}
use go_kubernetes_mcp_server.Kube.{Act, Reply, Prog}
use go_kubernetes_mcp_server.Kube.Rules.{Attached, Acts, done, act, run}

pub Acts-run {ℓ} :
    {A : Type ℓ} {S : Type 0} (P : Attached → Act → Type 0) (serve : S → (a : Act) → S × Reply a)
    (st : S) {r : Attached} {m : Prog A}
    → Acts P r m
    → All (λ t. P t.0 t.1) (run serve st r m).1
unfolding run
Acts-run P serve st done = tt
Acts-run P serve st (act {r} {a} {f} p h) = (p, Acts-run P serve (serve st a).0 (h (serve st a).1))
