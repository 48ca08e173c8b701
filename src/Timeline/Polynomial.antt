-- ===== src/Timeline/Polynomial.antt =====
-- src/ha_serverless.cc, `hash_string`: the loop computes a polynomial in 33.
use native.Mathlib.Nat.{mul-add-mod_self_right, pow-suc}
use mariadb_serverless_engin.Base.{
  ℕ, suc, ◌+◌, ◌*◌, ◌/◌, ◌^◌, ◌<◌, ◌≡◌, sym, ◌∙◌, ap, List, [], ◌∷◌, arith, u64, length, ◌==◌,
  if◌then◌else◌, Bool-cases, inl, inr,
}
use mariadb_serverless_engin.Timeline.{widen, hash_step, hash_from, hash_string}

-- The characters before the terminator, or all.
abbrev pub characters : List ℕ → List ℕ
characters [] = []
characters (c ∷ str) = let rest = characters str in if c == 0 then [] else c ∷ rest

-- The sum of the characters, the last taken once, and each other 33 times as often as the next.
abbrev pub weighted : List ℕ → ℕ
weighted [] = 0
weighted (c ∷ cs) = widen c * 33 ^ length cs + weighted cs

distribute : (q r k y : ℕ) → (q * 2 ^ 64 + r) * k + y ≡ q * k * 2 ^ 64 + (r * k + y)
distribute q r k y = omega arith

u64-mul : (x k y : ℕ) → u64 (u64 x * k + y) ≡ u64 (x * k + y)
u64-mul x k y =
    let q = x / 2 ^ 64 in
    let split : x ≡ q * 2 ^ 64 + u64 x = omega arith in
    let spread : x * k + y ≡ q * k * 2 ^ 64 + (u64 x * k + y) =
      ap (λ z. z * k + y) split ∙ distribute q (u64 x) k y in
    sym (ap u64 spread ∙ mul-add-mod_self_right (q * k) (2 ^ 64) (u64 x * k + y))

hash_step_lem : (hash c : ℕ) → hash_step hash c ≡ u64 (hash * 33 + widen c)
unfolding hash_step
hash_step_lem hash c = omega arith

-- One round, where `n` characters follow that weigh `w`.
round :
    (hash c n w : ℕ)
    → u64 (hash_step hash c * 33 ^ n + w) ≡ u64 (hash * 33 ^ suc n + (widen c * 33 ^ n + w))
round hash c n w =
    ap (λ z. u64 (z * 33 ^ n + w)) (hash_step_lem hash c)
    ∙ u64-mul (hash * 33 + widen c) (33 ^ n) w
    ∙ ap u64 (grown (33 ^ n) (33 ^ suc n) (pow-suc 33 n))
  where
    grown : (k k' : ℕ) → k' ≡ k * 33 → (hash * 33 + widen c) * k + w ≡ hash * k' + (widen c * k + w)
    grown k k' e = rw e (omega arith)

hash_from-weighted :
    (hash : ℕ) (str : List ℕ)
    → hash < 2 ^ 64
    → hash_from hash str ≡ u64 (hash * 33 ^ length (characters str) + weighted (characters str))
unfolding hash_from
hash_from-weighted hash [] h = omega arith
hash_from-weighted hash (c ∷ str) h = elim (Bool-cases (c == 0)) [
  | inl end ↦ rw end (omega arith)
  | inr more ↦ rw more (
      hash_from-weighted (hash_step hash c) str (ground (arith, hash_step_lem hash c))
      ∙ round hash c (length (characters str)) (weighted (characters str)))
]

-- The hash of a name is, modulo 2 ^ 64, a polynomial in 33: 5381 times 33 to the number of its
-- characters before the first zero byte, and each of them, widened from a signed `char`, times 33
-- to the number of those that follow it.
pub hash_string-weighted :
    (str : List ℕ)
    → hash_string str ≡ u64 (5381 * 33 ^ length (characters str) + weighted (characters str))
unfolding hash_string
hash_string-weighted str = hash_from-weighted 5381 str (omega arith)
