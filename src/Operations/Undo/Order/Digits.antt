-- ===== src/Operations/Undo/Order/Digits.antt =====
-- Revisions that are numbers, as %d writes them, are sorted as numbers.
use go_kubernetes_mcp_server.Base.{
  ℕ, zero, suc, ◌+◌, ◌-◌, ◌*◌, ◌/◌, ◌%◌, ◌≤◌, ◌<◌, pos, ◌≡◌, refl, sym, ◌∙◌, ap, subst, some, List,
  [], ◌∷◌, ◌++◌, ltb, codes, digit, show_digits, show_nat, arith, Bool-cases, ltb→lt, inl, inr,
  max_int, All, map, Bool, insert_by, sort_by, StringMap,
}
use mathlib.Core.List.{Perm}
use go_kubernetes_mcp_server.Base.Sort.Laws.{Sorted, sort_by-All, sort_by-Perm, sort_by-Sorted}
use go_kubernetes_mcp_server.Base.Show.Laws.{
  codes-append, digit-code, show_digits-low, show_digits-high,
}
use go_kubernetes_mcp_server.Operations.Undo.Order.{
  digits_from, unsigned, atoi, atoi_codes, insert_desc, sort_desc, sorted_revisions_desc,
}

digits_from-append :
    (acc : ℕ) (xs ys : List ℕ) (n : ℕ)
    → digits_from acc xs ≡ some n
    → digits_from acc (xs ++ ys) ≡ digits_from n ys
unfolding digits_from
digits_from-append acc [] ys n h = ground arith
digits_from-append acc (x ∷ xs) ys n h =
    ground (arith, digits_from-append (acc * 10 + (x - 48)) xs ys n)

digits_from-digit : (acc n : ℕ) → n < 10 → digits_from acc ((48 + n) ∷ []) ≡ some (acc * 10 + n)
unfolding digits_from
digits_from-digit acc n h = ground arith

digits_from-show_digits :
    (fuel n : ℕ) → n < fuel → digits_from 0 (codes (show_digits fuel n)) ≡ some n
digits_from-show_digits zero n h = let bad : ⊥ = omega arith in elim bad [ ]
digits_from-show_digits (suc fuel) n h = elim (Bool-cases (ltb n 10)) [
  | inl e ↦
      rw (show_digits-low fuel n e, digit-code n (ltb→lt n 10 e))
        (digits_from-digit 0 n (ltb→lt n 10 e) ∙ ap some (omega arith))
  | inr e ↦
      rw (show_digits-high fuel n e, codes-append (show_digits fuel (n / 10)) (digit (n % 10)))
        (digits_from-append 0 (codes (show_digits fuel (n / 10))) (codes (digit (n % 10))) (n / 10)
            (digits_from-show_digits fuel (n / 10) (ground arith))
          ∙ rw (digit-code (n % 10) (omega arith))
              (digits_from-digit (n / 10) (n % 10) (omega arith) ∙ ap some (omega arith)))
]

-- A text of digits begins with a digit.
first_digit :
    (fuel n : ℕ)
    → n < fuel
    → (d : ℕ) × (s : List ℕ) × (d < 10) × (codes (show_digits fuel n) ≡ (48 + d) ∷ s)
first_digit zero n h = let bad : ⊥ = omega arith in elim bad [ ]
first_digit (suc fuel) n h = elim (Bool-cases (ltb n 10)) [
  | inl e ↦ (n, [], ltb→lt n 10 e, rw (show_digits-low fuel n e) (digit-code n (ltb→lt n 10 e)))
  | inr e ↦
      let (d, s, less, eq) = first_digit fuel (n / 10) (ground arith) in
      (
        d,
        s ++ codes (digit (n % 10)),
        less,
        rw
            (
              show_digits-high fuel n e,
              codes-append (show_digits fuel (n / 10)) (digit (n % 10)),
              eq,
            )
            refl,
      )
]

atoi-digits :
    (xs : List ℕ) (d : ℕ) (s : List ℕ) (n : ℕ)
    → d < 10
    → xs ≡ (48 + d) ∷ s
    → digits_from 0 xs ≡ some n
    → n ≤ max_int
    → atoi_codes xs ≡ pos n
unfolding atoi_codes unsigned
atoi-digits xs d s n less e h le =
    subst (λ ys. atoi_codes ys ≡ pos n) (sym e) (go (subst (λ ys. digits_from 0 ys ≡ some n) e h))
  where
    go : digits_from 0 ((48 + d) ∷ s) ≡ some n → atoi_codes ((48 + d) ∷ s) ≡ pos n
    go k = ground arith

-- What %d writes of a number that is no greater than an int of 64 bits can be, `strconv.Atoi` reads back
-- as that number.
atoi-show_nat : (n : ℕ) → n ≤ max_int → atoi (show_nat n) ≡ pos n
unfolding atoi show_nat
atoi-show_nat n le =
    let (d, s, less, eq) = first_digit (suc n) n (omega arith) in
    atoi-digits (codes (show_digits (suc n) n)) d s n less eq
      (digits_from-show_digits (suc n) n (omega arith)) le

abbrev pub larger : ℕ → ℕ → Bool
larger a b = ltb b a

insert_desc-numbers :
    (n : ℕ) (ms : List ℕ)
    → n ≤ max_int
    → All (λ m. m ≤ max_int) ms
    → insert_desc (show_nat n) (map show_nat ms) ≡ map show_nat (insert_by larger n ms)
unfolding insert_desc insert_by
insert_desc-numbers n [] h hs = refl
insert_desc-numbers n (m ∷ ms) h (k, ks) =
    rw (atoi-show_nat n h, atoi-show_nat m k) (ground (arith, insert_desc-numbers n ms h ks))

sort_desc-numbers :
    (ns : List ℕ)
    → All (λ n. n ≤ max_int) ns
    → sort_desc (map show_nat ns) ≡ map show_nat (sort_by larger ns)
unfolding sort_desc sort_by
sort_desc-numbers [] h = refl
sort_desc-numbers (n ∷ ns) (h, hs) =
    ap (insert_desc (show_nat n)) (sort_desc-numbers ns hs)
    ∙ insert_desc-numbers n (sort_by larger ns) h (sort_by-All larger _ ns hs)

-- The revisions of a history whose keys are numbers, as %d writes them and no greater than an int of 64
-- bits can be, are sorted as those numbers: the texts of the same numbers, each as often, the greatest
-- first.
pub sorted_revisions_desc-numbers :
    {V : Type 0} (by_rev : StringMap V) (ns : List ℕ)
    → map (λ e. e.0) by_rev ≡ map show_nat ns
    → All (λ n. n ≤ max_int) ns
    → (ms : List ℕ) × Perm ms ns
      × Sorted larger ms
      × (sorted_revisions_desc by_rev ≡ map show_nat ms)
unfolding sorted_revisions_desc
sorted_revisions_desc-numbers by_rev ns e h = (
  sort_by larger ns,
  sort_by-Perm larger ns,
  sort_by-Sorted larger (λ a b k. ground arith) (λ a b c k l. ground arith) ns,
  ap sort_desc e ∙ sort_desc-numbers ns h,
)
