-- ===== src/Operations/Undo/Order.antt =====
-- internal/tools/operations/scale.go: revisions in descending order of their numbers.
pub mod Digits
use go_kubernetes_mcp_server.Base.{
  ℕ, ◌+◌, ◌*◌, ◌-◌, ℤ, pos, negsuc, String, Bool, true, false, ◌&&◌, Option, none, some, List, [],
  ◌∷◌, if◌then◌else◌, leb, ltb, nat_eq, StringMap, codes, map, max_int,
}

-- The value of a run of decimal digits; `none` where another character stands.
pub digits_from : ℕ → List ℕ → Option ℕ
digits_from acc [] = some acc
digits_from acc (c ∷ s) =
    let rest = digits_from (acc * 10 + (c - b'0')) s in
    if leb b'0' c && leb c b'9' then rest else none

-- `strconv.Atoi` with its error dropped: 0 for what is no number, and the nearest bound for a number
-- out of the range of an int of 64 bits.
pub unsigned : List ℕ → Option ℕ
unfolding digits_from
unsigned [] = none
unsigned (c ∷ s) = digits_from 0 (c ∷ s)

abbrev pub clamp_pos : Option ℕ → ℤ
clamp_pos none = pos 0
clamp_pos (some n) = if leb n max_int then pos n else pos max_int

abbrev pub negate : ℕ → ℤ
negate ℕ.zero = pos 0
negate (ℕ.suc n) = negsuc n

abbrev pub clamp_neg : Option ℕ → ℤ
clamp_neg none = pos 0
clamp_neg (some n) = if leb n (max_int + 1) then negate n else negsuc max_int

pub atoi_codes : List ℕ → ℤ
unfolding unsigned
atoi_codes [] = pos 0
atoi_codes (c ∷ s) =
    if nat_eq c b'-'
    then clamp_neg (unsigned s)
    else if nat_eq c b'+'
    then clamp_pos (unsigned s)
    else clamp_pos (unsigned (c ∷ s))

unfoldable pub atoi : String → ℤ
unfolding atoi_codes
atoi r = atoi_codes (codes r)

abbrev pub ltb_ℤ : ℤ → ℤ → Bool
ltb_ℤ (pos a) (pos b) = ltb a b
ltb_ℤ (pos a) (negsuc b) = false
ltb_ℤ (negsuc a) (pos b) = true
ltb_ℤ (negsuc a) (negsuc b) = ltb b a

-- `sort.Slice` by descending number. Keys that have one number (which the controller never gives out)
-- may come in any order in Go; here they keep theirs.
unfoldable pub insert_desc : String → List String → List String
insert_desc r [] = r ∷ []
insert_desc r (t ∷ ts) =
    let later = insert_desc r ts in if ltb_ℤ (atoi r) (atoi t) then t ∷ later else r ∷ t ∷ ts

unfoldable pub sort_desc : List String → List String
unfolding insert_desc
sort_desc [] = []
sort_desc (r ∷ rs) = insert_desc r (sort_desc rs)

unfoldable pub sorted_revisions_desc {ℓ} : {V : Type ℓ} → StringMap V → List String
unfolding sort_desc
sorted_revisions_desc by_rev = sort_desc (map (λ e. e.0) by_rev)
