-- ===== src/Troubleshoot/Top/Laws.antt =====
-- What a percentage of top_nodes and top_pods says.
use go_kubernetes_mcp_server.Base.{
  ℕ, suc, ◌*◌, ◌/◌, ◌<◌, pos, ◌≡◌, refl, Bool, true, false, arith, show_nat, show_int, ◌<>◌,
  if◌then◌else◌,
}
use go_kubernetes_mcp_server.Kube.Objects.{Quantity}
use go_kubernetes_mcp_server.Troubleshoot.Top.{pct, times_100, int64, quotient}

times_100-small : (u : ℕ) → u < 92233720368547758 → times_100 (pos u) ≡ pos (u * 100)
unfolding times_100 int64
times_100-small u h = ground arith

shown_of :
    (whole : Bool) (u b : ℕ)
    → u < 92233720368547758
    → show_int (quotient (times_100 (if whole then pos u else pos 0)) (pos (suc b))) <> "%"
      ≡ show_nat ((if whole then u else 0) * 100 / suc b) <> "%"
unfolding show_int quotient
shown_of true u b h = rw (times_100-small u h) refl
shown_of false u b h = rw (times_100-small 0 (omega arith)) refl

-- A percentage is the whole part of a hundred times the usage over the base, where both are whole
-- numbers and the usage is small enough for 64 bits; and a usage that is no whole number, as one of
-- some millicores is, counts for nothing.
pub pct_lem :
    (used base : Quantity) (u b : ℕ)
    → base.is_zero ≡ false
    → base.is_int64 ≡ true
    → base.value ≡ pos (suc b)
    → used.value ≡ pos u
    → u < 92233720368547758
    → pct used base ≡ show_nat ((if used.is_int64 then u else 0) * 100 / suc b) <> "%"
unfolding pct
pct_lem used base u b z i e f h = rw (z, i, e, f) (shown_of used.is_int64 u b h)
