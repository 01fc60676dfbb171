-- ===== src/Tools/Handler/Rules.antt =====
-- The rules by which `Acts` goes through the steps of a handler.
use go_kubernetes_mcp_server.Base.{
  ◌≡◌, refl, Bool, true, false, Option, none, some, if◌then◌else◌, String,
}
use go_kubernetes_mcp_server.Err.{Err}
use go_kubernetes_mcp_server.Kube.{Prog, Answer, ok, failed, Act}
use go_kubernetes_mcp_server.Kube.Rules.{Attached, Acts, done}
use go_kubernetes_mcp_server.Tools.Handler.{Outcome, guard, settle}

-- What stands behind a guard runs only if its check passes.
pub guard-Acts :
    {P : Attached → Act → Type 0} {r : Attached} (check : Option Err) (k : Unit {0} → Prog Outcome)
    → (check ≡ none → Acts P r (k tt))
    → Acts P r (guard check k)
unfolding guard
guard-Acts none k h = h refl
guard-Acts (some err) k h = done

-- What stands behind a call that may fail runs only on an answer.
pub settle-Acts :
    {P : Attached → Act → Type 0} {r : Attached} {A : Type 0} (action : String)
    (k : A → Prog Outcome) (a : Answer A)
    → ((x : A) → Acts P r (k x))
    → Acts P r (settle action k a)
unfolding settle
settle-Acts action k (ok x) h = h x
settle-Acts action k (failed err) h = done

pub if-Acts :
    {P : Attached → Act → Type 0} {r : Attached} (b : Bool) (x y : Prog Outcome)
    → Acts P r x
    → Acts P r y
    → Acts P r (if b then x else y)
if-Acts true x y h k = h
if-Acts false x y h k = k
