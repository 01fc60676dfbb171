-- ===== src/Troubleshoot/Adds.antt =====
-- How a stretch of a diagnosis changes the findings.
use go_kubernetes_mcp_server.Base.{
  ◌≡◌, refl, Bool, true, false, ◌&&◌, ◌||◌, not, List, [], ◌∷◌, ◌++◌, if◌then◌else◌, any, is_empty,
  arith,
}
use go_kubernetes_mcp_server.Troubleshoot.Findings.{
  Severity, Finding, Findings, new_findings, add, or_ok, ok,
}
use go_kubernetes_mcp_server.Tools.Handler.{Piece}

abbrev pub is_ok : Severity → Bool
is_ok ok = true
is_ok _ = false

-- Whether some finding says that no issue was found.
abbrev pub reports_ok : Findings → Bool
reports_ok f = any (λ (i : Finding). is_ok i.severity) f.items

-- From one state of the findings to a later one nothing is said to be well, and something is added
-- exactly if `calm` is false.
unfoldable pub Adds : Bool → Findings → Findings → Type 0
Adds calm f g = (is_empty g.items ≡ (is_empty f.items && calm)) × (reports_ok g ≡ reports_ok f)

pub Adds-compose : (b c : Bool) (f g h : Findings) → Adds b f g → Adds c g h → Adds (b && c) f h
unfolding Adds
Adds-compose b c f g h p q = ground arith

is_empty-append_one : (xs : List Finding) (x : Finding) → is_empty (xs ++ x ∷ []) ≡ false
is_empty-append_one [] x = refl
is_empty-append_one (y ∷ ys) x = refl

any-append_one :
    (xs : List Finding) (x : Finding)
    → any (λ (i : Finding). is_ok i.severity) (xs ++ x ∷ [])
      ≡ (any (λ (i : Finding). is_ok i.severity) xs || is_ok x.severity)
any-append_one [] x = ground arith
any-append_one (y ∷ ys) x = ground (arith, any-append_one ys x)

pub is_empty-add :
    (sev : Severity) (text : List Piece) (f : Findings) → is_empty (add sev text f).items ≡ false
unfolding add
is_empty-add sev text f = is_empty-append_one f.items _

pub reports_ok-add :
    (sev : Severity) (text : List Piece) (f : Findings)
    → any (λ (i : Finding). is_ok i.severity) (add sev text f).items
      ≡ (any (λ (i : Finding). is_ok i.severity) f.items || is_ok sev)
unfolding add
reports_ok-add sev text f = any-append_one f.items (record { severity = sev; text = text })

pub add-Adds :
    (sev : Severity) (text : List Piece) (f : Findings)
    → is_ok sev ≡ false
    → Adds false f (add sev text f)
unfolding Adds
add-Adds sev text f h = ground (arith, is_empty-add sev text f, reports_ok-add sev text f)

pub same-Adds : (f : Findings) → Adds true f f
unfolding Adds
same-Adds f = ground arith

-- One finding that is not `ok` under a test.
pub if-Adds : (b : Bool) (f g : Findings) → Adds false f g → Adds (not b) f (if b then g else f)
if-Adds true f g h = h
if-Adds false f g h = same-Adds f

pub reports_ok-or_ok :
    (text : List Piece) (calm : Bool) (g : Findings)
    → Adds calm new_findings g
    → reports_ok (or_ok text g) ≡ calm
unfolding or_ok Adds
reports_ok-or_ok text calm g h = grind (arith, is_empty-add, reports_ok-add)
