-- ===== src/Base/Show/Laws.antt =====
-- The digits of numbers: what they are, and how many bytes they take.
use Prim.Native.Nat.{ℕ, zero, suc, ◌+◌, ◌*◌, ◌/◌, ◌%◌, ◌≤◌, ◌<◌}
use Prim.Native.Char.{code}
use Prim.Native.String.{String}
use Prim.Native.String.append
use mathlib.Core.Path.{◌≡◌, refl, sym, ap, ◌∙◌}
use mathlib.Core.Logic.{inl, inr}
use mathlib.Core.Bool.{true, false}
use mathlib.Core.List.{List, [], ◌∷◌, ◌++◌, append_assoc}
use native.Mathlib.Omega.{arith}
use go_kubernetes_mcp_server.Base.Tests.{ltb, ltb→lt, Bool-cases}
use go_kubernetes_mcp_server.Base.Lists.{length, length-append}
use go_kubernetes_mcp_server.Base.Text.{codes, ◌<>◌}
use go_kubernetes_mcp_server.Base.Show.{digit, show_digits, show_nat, utf8_code, encode, utf8}

pub codes-append : (s t : String) → codes (s <> t) ≡ codes s ++ codes t
codes-append String.[] t = ap codes (append.nil t)
codes-append (String.◌∷◌ c s) t =
    ap codes (append.cons c s t) ∙ ap (λ xs. code c ∷ xs) (codes-append s t)

pub digit-code : (n : ℕ) → n < 10 → codes (digit n) ≡ (48 + n) ∷ []
digit-code zero h = refl
digit-code (suc zero) h = refl
digit-code (suc (suc zero)) h = refl
digit-code (suc (suc (suc zero))) h = refl
digit-code (suc (suc (suc (suc zero)))) h = refl
digit-code (suc (suc (suc (suc (suc zero))))) h = refl
digit-code (suc (suc (suc (suc (suc (suc zero)))))) h = refl
digit-code (suc (suc (suc (suc (suc (suc (suc zero))))))) h = refl
digit-code (suc (suc (suc (suc (suc (suc (suc (suc zero)))))))) h = refl
digit-code (suc (suc (suc (suc (suc (suc (suc (suc (suc zero))))))))) h = refl
digit-code (suc (suc (suc (suc (suc (suc (suc (suc (suc (suc n)))))))))) h =
    let bad : ⊥ = omega arith in elim bad [ ]

pub show_digits-low : (fuel n : ℕ) → ltb n 10 ≡ true → show_digits (suc fuel) n ≡ digit n
unfolding show_digits
show_digits-low fuel n h = ground arith

pub show_digits-high :
    (fuel n : ℕ)
    → ltb n 10 ≡ false
    → show_digits (suc fuel) n ≡ show_digits fuel (n / 10) <> digit (n % 10)
unfolding show_digits
show_digits-high fuel n h = ground arith

encode-append : (xs ys : List ℕ) → encode (xs ++ ys) ≡ encode xs ++ encode ys
unfolding encode
encode-append [] ys = refl
encode-append (x ∷ xs) ys =
    ap (λ zs. utf8_code x ++ zs) (encode-append xs ys)
    ∙ sym (append_assoc (utf8_code x) (encode xs) (encode ys))

utf8-append : (s t : String) → utf8 (s <> t) ≡ utf8 s ++ utf8 t
unfolding utf8
utf8-append s t = ap encode (codes-append s t) ∙ encode-append (codes s) (codes t)

length-utf8-digit : (n : ℕ) → n < 10 → length (utf8 (digit n)) ≡ 1
unfolding utf8 encode utf8_code
length-utf8-digit n h = rw (digit-code n h) (ground arith)

abbrev pub power_of_ten : ℕ → ℕ
power_of_ten zero = 1
power_of_ten (suc k) = 10 * power_of_ten k

-- A number below a power of ten has no more digits than its exponent.
show_digits-length :
    (k fuel n : ℕ)
    → n < power_of_ten (suc k)
    → n < fuel
    → length (utf8 (show_digits fuel n)) ≤ suc k
show_digits-length k zero n less h = let bad : ⊥ = omega arith in elim bad [ ]
show_digits-length zero (suc fuel) n less h =
    rw (show_digits-low fuel n (ground arith)) (omega (arith, length-utf8-digit n (omega arith)))
show_digits-length (suc k) (suc fuel) n less h = elim (Bool-cases (ltb n 10)) [
  | inl e ↦ rw (show_digits-low fuel n e) (omega (arith, length-utf8-digit n (ltb→lt n 10 e)))
  | inr e ↦
      rw
        (
          show_digits-high fuel n e,
          utf8-append (show_digits fuel (n / 10)) (digit (n % 10)),
          length-append (utf8 (show_digits fuel (n / 10))) (utf8 (digit (n % 10))),
        )
        (omega (
          arith,
          length-utf8-digit (n % 10) (omega arith),
          show_digits-length k fuel (n / 10) (omega arith) (ground arith),
        ))
]

pub show_nat-length : (k n : ℕ) → n < power_of_ten (suc k) → length (utf8 (show_nat n)) ≤ suc k
unfolding show_nat
show_nat-length k n h = show_digits-length k (suc n) n h (omega arith)
