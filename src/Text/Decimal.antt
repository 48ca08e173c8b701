-- ===== src/Text/Decimal.antt =====
-- Decimal print: it can be read back, so distinct numbers have distinct digits.
use native.Mathlib.Nat.{pow-suc}
use mariadb_serverless_engin.Base.{
  ℕ, zero, suc, ◌+◌, ◌-◌, ◌*◌, ◌/◌, ◌%◌, ◌^◌, ◌≤◌, ◌<◌, ◌≡◌, refl, sym, ap, subst, ◌∙◌, List, [],
  ◌∷◌, ◌++◌, arith, length, length-append, All, All-append, Bool-cases, inl, inr, ltb,
}
use mariadb_serverless_engin.Text.{decimal_on, decimal}

-- The number that a run of digits stands for, after `n`.
abbrev pub read_decimal : ℕ → List ℕ → ℕ
read_decimal n [] = n
read_decimal n (c ∷ s) = read_decimal (n * 10 + (c - b'0')) s

read_decimal-append :
    (n : ℕ) (s t : List ℕ) → read_decimal n (s ++ t) ≡ read_decimal (read_decimal n s) t
read_decimal-append n [] t = refl
read_decimal-append n (c ∷ s) t = read_decimal-append (n * 10 + (c - b'0')) s t

read_decimal-decimal_on : (fuel n : ℕ) → n < 10 ^ fuel → read_decimal 0 (decimal_on fuel n) ≡ n
unfolding decimal_on
read_decimal-decimal_on zero n h = omega arith
read_decimal-decimal_on (suc fuel) n h =
    let bound : n < 10 ^ fuel * 10 = rw pow-suc at h in
    ground (
      arith,
      read_decimal-decimal_on fuel (n / 10) (omega arith),
      read_decimal-append 0 (decimal_on fuel (n / 10)) ((b'0' + n % 10) ∷ []),
    )

-- A 64-bit number is read back from its decimal print.
pub read_decimal-decimal : (n : ℕ) → n < 2 ^ 64 → read_decimal 0 (decimal n) ≡ n
unfolding decimal
read_decimal-decimal n h = read_decimal-decimal_on 20 n (omega arith)

pub decimal-injective : (m n : ℕ) → m < 2 ^ 64 → n < 2 ^ 64 → decimal m ≡ decimal n → m ≡ n
decimal-injective m n h k e =
    sym (read_decimal-decimal m h) ∙ ap (read_decimal 0) e ∙ read_decimal-decimal n k

abbrev pub IsDigit : ℕ → Type 0
IsDigit c = (b'0' ≤ c) × (c ≤ b'9')

decimal_on-digits : (fuel n : ℕ) → All IsDigit (decimal_on fuel n)
unfolding decimal_on
decimal_on-digits zero n = tt
decimal_on-digits (suc fuel) n = elim (Bool-cases (ltb n 10)) [
  | inl small ↦ rw small ((omega arith, ground arith), tt)
  | inr large ↦
      rw large
        (All-append IsDigit _ _ (decimal_on-digits fuel (n / 10)) ((omega arith, omega arith), tt))
]

pub decimal-digits : (n : ℕ) → All IsDigit (decimal n)
unfolding decimal
decimal-digits n = decimal_on-digits 20 n

length-decimal_on-le : (fuel n : ℕ) → length (decimal_on fuel n) ≤ fuel
unfolding decimal_on
length-decimal_on-le zero n = omega arith
length-decimal_on-le (suc fuel) n = ground (
  arith,
  length-decimal_on-le fuel (n / 10),
  length-append (decimal_on fuel (n / 10)) ((b'0' + n % 10) ∷ []),
)

pub length-decimal-le : (n : ℕ) → length (decimal n) ≤ 20
unfolding decimal
length-decimal-le n = length-decimal_on-le 20 n

cons_parts {ℓ} :
    {A : Type ℓ} {x y : A} {xs ys : List A}
    → ◌≡◌ {A = List A} (x ∷ xs) (y ∷ ys)
    → (x ≡ y) × (xs ≡ ys)
cons_parts e = (cc, cc)

-- Digits followed by another character: the digits and what follows can be told apart.
pub digits_split :
    (c : ℕ) (a b x y : List ℕ)
    → ¬ IsDigit c
    → All IsDigit a
    → All IsDigit b
    → a ++ c ∷ x ≡ b ++ c ∷ y
    → (a ≡ b) × (x ≡ y)
digits_split c [] [] x y n h k e = (refl, (cons_parts e).1)
digits_split c [] (q ∷ b) x y n h k e = absurd (n (subst IsDigit (sym (cons_parts e).0) k.0))
digits_split c (p ∷ a) [] x y n h k e = absurd (n (subst IsDigit (cons_parts e).0 h.0))
digits_split c (p ∷ a) (q ∷ b) x y n h k e =
    let (same, rest) = digits_split c a b x y n h.1 k.1 (cons_parts e).1 in
    (cc ((cons_parts e).0, same), rest)
