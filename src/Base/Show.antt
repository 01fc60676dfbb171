-- ===== src/Base/Show.antt =====
-- Numbers as Go's %d writes them, and texts as their bytes in UTF-8.
pub mod Laws
use Prim.Native.Nat.{ℕ, zero, suc, ◌+◌, ◌-◌, ◌/◌, ◌%◌}
use Prim.Native.String.{String, slice}
use mathlib.Core.Bool.{Bool, true, false}
use mathlib.Core.List.{List, [], ◌∷◌, ◌++◌}
use go_kubernetes_mcp_server.Base.Tests.{ltb, if◌then◌else◌}
use go_kubernetes_mcp_server.Base.Int.{ℤ, pos, negsuc}
use go_kubernetes_mcp_server.Base.Text.{codes, ◌<>◌}

-- The digit of a number below ten.
abbrev pub digit : ℕ → String
digit n = slice "0123456789" n (suc n)

-- On fuel: a number has fewer digits than its successor counts.
unfoldable pub show_digits : ℕ → ℕ → String
show_digits zero n = ""
show_digits (suc fuel) n = elim (ltb n 10) [
  | true ↦ digit n
  | false ↦ show_digits fuel (n / 10) <> digit (n % 10)
]

unfoldable pub show_nat : ℕ → String
unfolding show_digits
show_nat n = show_digits (suc n) n

unfoldable pub show_int : ℤ → String
unfolding show_nat
show_int (pos n) = show_nat n
show_int (negsuc n) = "-" <> show_nat (suc n)

-- A word of 32 bits as the signed number that it stands for.
unfoldable pub int32 : ℕ → ℤ
int32 w = if ltb w 2147483648 then pos w else negsuc (4294967295 - w)

unfoldable pub show_bool : Bool → String
show_bool true = "true"
show_bool false = "false"

unfoldable pub utf8_code : ℕ → List ℕ
utf8_code c =
    if ltb c 0x80
    then c ∷ []
    else if ltb c 0x800
    then (0xC0 + c / 64) ∷ (0x80 + c % 64) ∷ []
    else if ltb c 0x10000
    then (0xE0 + c / 4096) ∷ (0x80 + c / 64 % 64) ∷ (0x80 + c % 64) ∷ []
    else (0xF0 + c / 262144) ∷ (0x80 + c / 4096 % 64) ∷ (0x80 + c / 64 % 64) ∷ (0x80 + c % 64) ∷ []

unfoldable pub encode : List ℕ → List ℕ
unfolding utf8_code
encode [] = []
encode (c ∷ cs) = utf8_code c ++ encode cs

unfoldable pub utf8 : String → List ℕ
unfolding encode
utf8 t = encode (codes t)

-- `strings.Join`
unfoldable pub join : String → List String → String
join sep [] = ""
join sep (t ∷ []) = t
join sep (t ∷ u ∷ ts) = t <> sep <> join sep (u ∷ ts)
