-- ===== src/Rpc/Truncate.antt =====
-- internal/rpc/result.go: the cap on a text, over its bytes.
pub mod Laws
use go_kubernetes_mcp_server.Base.{
  ℕ, zero, suc, ◌-◌, ◌/◌, ℤ, pos, negsuc, Bool, true, false, not, Option, none, some, List, [], ◌∷◌,
  ◌++◌, leb, nat_eq, if◌then◌else◌, length, take, get_elem?, utf8, show_nat,
}

-- `b & 0xC0 != 0x80`: the two high bits of a byte are not 10.
pub utf8_rune_start : ℕ → Bool
utf8_rune_start b = not (nat_eq (b / 64) 2)

-- The loop `for cut > 0 && !utf8RuneStart(s[cut]) { cut-- }`; an index out of range, which Go would
-- panic at, does not occur below (`Truncate.Laws`), and stops the loop here.
pub back_to_boundary : List ℕ → ℕ → ℕ
unfolding utf8_rune_start
back_to_boundary s zero = zero
back_to_boundary s (suc n) = elim (get_elem? s (suc n)) [
  | none ↦ suc n
  | some b ↦ if utf8_rune_start b then suc n else back_to_boundary s n
]

-- The text that `fmt.Sprintf` makes of the number of bytes that are left out.
unfoldable pub omitted_marker : ℕ → List ℕ
omitted_marker n =
    utf8 "\n…truncated ("
    ++ (utf8 (show_nat n) ++ utf8 " more bytes omitted, raise --max-output-bytes)")

-- `marker` is `omitted_marker`; where a text is cut does not depend on it.
unfoldable pub truncate_text : (ℕ → List ℕ) → List ℕ → ℤ → List ℕ
unfolding back_to_boundary
truncate_text marker s (negsuc _) = s
truncate_text marker s (pos max_bytes) =
    if leb max_bytes 0
    then s
    else if leb (length s) max_bytes
    then s
    else take (back_to_boundary s max_bytes) s ++ marker (length s - max_bytes)
