-- ===== src/Base/Text.antt =====
-- Texts: the native `String` where the program compares whole texts, and its code points where it
-- walks them. Case folding is Go's for every comparison with an ASCII word: beside A to Z, the code
-- points outside ASCII that fold into it are U+0130 and U+212A (`strings.ToLower`), and U+017F and
-- U+212A (`strings.EqualFold`). No other code point is changed.
use Prim.Native.Nat.{ℕ, ◌+◌, ◌-◌}
use Prim.Native.Char.{code}
use Prim.Native.String
use Prim.Native.String.{String}
use mathlib.Core.Path.{◌≡◌, refl}
use native.Mathlib.Omega.{arith}
use mathlib.Core.Bool.{Bool, true, false, ◌&&◌}
use mathlib.Core.Option.{Option, none, some}
use mathlib.Core.List.{List, [], ◌∷◌, map}
use go_kubernetes_mcp_server.Base.Tests.{nat_eq, leb, if◌then◌else◌}
use go_kubernetes_mcp_server.Base.Lists.{any}

abbrev pub codes : String → List ℕ
codes String.[] = []
codes (String.◌∷◌ c s) = code c ∷ codes s

abbrev pub codes_eq : List ℕ → List ℕ → Bool
codes_eq [] [] = true
codes_eq (x ∷ xs) (y ∷ ys) = nat_eq x y && codes_eq xs ys
codes_eq _ _ = false

pub codes_eq_refl : (t : List ℕ) → codes_eq t t ≡ true
codes_eq_refl [] = refl
codes_eq_refl (c ∷ t) = ground (arith, codes_eq_refl t)

pub codes_eq_lem : (s t : List ℕ) → codes_eq s t ≡ true → s ≡ t
codes_eq_lem [] [] h = refl
codes_eq_lem [] (d ∷ t) h = ground arith
codes_eq_lem (c ∷ s) [] h = ground arith
codes_eq_lem (c ∷ s) (d ∷ t) h = ground (arith, codes_eq_lem s t)

unfoldable pub to_lower_code : ℕ → ℕ
to_lower_code c =
    if leb b'A' c && leb c b'Z'
    then c + 32
    else if nat_eq c 0x130
    then b'i'
    else if nat_eq c 0x212A
    then b'k'
    else c

unfoldable pub fold_code : ℕ → ℕ
fold_code c =
    if leb b'A' c && leb c b'Z'
    then c + 32
    else if nat_eq c 0x17F
    then b's'
    else if nat_eq c 0x212A
    then b'k'
    else c

-- `strings.ToLower(s) == word`, for a word in lower case.
unfoldable pub lower_is : String → String → Bool
unfolding to_lower_code
lower_is s word = codes_eq (map to_lower_code (codes s)) (codes word)

-- `strings.ToUpper(s) == word`, for a word in upper case; U+0131 and U+017F have an upper case in ASCII.
unfoldable pub to_upper_code : ℕ → ℕ
to_upper_code c =
    if leb b'a' c && leb c b'z'
    then c - 32
    else if nat_eq c 0x131
    then b'I'
    else if nat_eq c 0x17F
    then b'S'
    else c

unfoldable pub upper_is : String → String → Bool
unfolding to_upper_code
upper_is s word = codes_eq (map to_upper_code (codes s)) (codes word)

-- `strings.EqualFold(s, t)`
unfoldable pub equal_fold : String → String → Bool
unfolding fold_code
equal_fold s t = codes_eq (map fold_code (codes s)) (map fold_code (codes t))

-- `strings.ContainsAny(s, chars)`
unfoldable pub contains_any : String → List ℕ → Bool
contains_any s chars = any (λ c. any (nat_eq c) chars) (codes s)

-- Two texts joined. `++` is that of lists.
infixr 60 ◌<>◌
abbrev pub ◌<>◌ : String → String → String
s <> t = String.◌++◌ s t

-- `strings.Index(s, c)` for one character, with what stands before it and after it.
unfoldable pub cut_at : ℕ → String → Option (String × String)
cut_at sep String.[] = none
cut_at sep (String.◌∷◌ c s) =
    let rest = cut_at sep s in
    if nat_eq (code c) sep
    then some (String.[], s)
    else elim rest [ none ↦ none | some (a, b) ↦ some (String.◌∷◌ c a, b) ]

-- `strings.Contains(s, c)` for one character.
unfoldable pub contains_char : ℕ → String → Bool
contains_char c s = any (nat_eq c) (codes s)
