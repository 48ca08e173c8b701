-- ===== src/Handler/Threads/Holding.antt =====
-- src/ha_serverless.cc: threads that hold connections of the pool while they read.
use mariadb_serverless_engin.Base.{
  ℕ, ◌<◌, ◌≡◌, refl, sym, ap, ◌∙◌, false, List, [], ◌∷◌, Option, none, some, arith, some-inj, ◌==◌,
  ==_iff, ==_refl, if◌then◌else◌, Bool-cases, inl, inr, subst,
}
use mariadb_serverless_engin.Types.{PageId}
use mariadb_serverless_engin.Pool.Lending.{times, given_back}

-- Where a thread stands: between reads, waiting for a connection after a miss, with a connection that
-- fetches a page, or at the end of a read, about to return the connection.
pub data Phase : Type 0 where
  idle : Phase
  waits : PageId → Phase
  fetches : PageId → ℕ → Phase
  leaves : ℕ → Phase

abbrev pub connection : Phase → Option ℕ
connection idle = none
connection (waits p) = none
connection (fetches p n) = some n
connection (leaves n) = some n

-- A function changed at one place.
abbrev pub set_at {ℓ} : {A : Type ℓ} → ℕ → A → (ℕ → A) → ℕ → A
set_at i x f j = if j == i then x else f j

-- Each connection that a thread has is lent, and no two threads have the same.
pub record IsHolding (phase : ℕ → Phase) (lent : List ℕ) : Type 0 where
  pub held : (i n : ℕ) → connection (phase i) ≡ some n → 0 < times n lent
  pub apart : (i j n : ℕ) → connection (phase i) ≡ some n → connection (phase j) ≡ some n → i ≡ j

times-given_back :
    (c d : ℕ) (lent : List ℕ) → (c == d) ≡ false → times d (given_back c lent) ≡ times d lent
times-given_back c d [] h = refl
times-given_back c d (x ∷ lent) h =
    ground (arith, times-given_back c d lent h, ==_iff x c, ==_iff x d)

-- A thread that has no connection afterwards: the others keep theirs.
lets_go :
    (i j n : ℕ) (q : Phase) (phase : ℕ → Phase)
    → connection q ≡ none
    → connection (set_at i q phase j) ≡ some n
    → ((j == i) ≡ false) × (connection (phase j) ≡ some n)
lets_go i j n q phase empty e = elim (Bool-cases (j == i)) [
  | inl same ↦ absurd (cc (empty, rw same at e))
  | inr other ↦ (other, rw other at e)
]

pub IsHolding-without :
    (i : ℕ) (q : Phase) (phase : ℕ → Phase) (lent : List ℕ)
    → connection q ≡ none
    → IsHolding phase lent
    → IsHolding (set_at i q phase) lent
IsHolding-without i q phase lent empty v = record {
  held = λ j n e. v.held j n (lets_go i j n q phase empty e).1;
  apart = λ j k n e e'.
      v.apart j k n (lets_go i j n q phase empty e).1 (lets_go i k n q phase empty e').1;
}

-- A thread that goes on with what it has.
pub IsHolding-kept :
    (i : ℕ) (q : Phase) (phase : ℕ → Phase) (lent : List ℕ)
    → connection q ≡ connection (phase i)
    → IsHolding phase lent
    → IsHolding (set_at i q phase) lent
IsHolding-kept i q phase lent e v = record {
  held = λ j n h. v.held j n (sym (kept j) ∙ h);
  apart = λ j k n h h'. v.apart j k n (sym (kept j) ∙ h) (sym (kept k) ∙ h');
}
  where
    kept : (j : ℕ) → connection (set_at i q phase j) ≡ connection (phase j)
    kept j = elim (Bool-cases (j == i)) [
      | inl same ↦ rw same (e ∙ ap (λ k. connection (phase k)) (sym ((==_iff j i).0 same)))
      | inr other ↦ rw other refl
    ]

-- A thread that returns what it has.
pub IsHolding-returned :
    (i c : ℕ) (q : Phase) (phase : ℕ → Phase) (lent : List ℕ)
    → connection (phase i) ≡ some c
    → connection q ≡ none
    → IsHolding phase lent
    → IsHolding (set_at i q phase) (given_back c lent)
IsHolding-returned i c q phase lent mine empty v = record {
  held = λ j n e. kept j n (lets_go i j n q phase empty e);
  apart = λ j k n e e'.
      v.apart j k n (lets_go i j n q phase empty e).1 (lets_go i k n q phase empty e').1;
}
  where
    kept :
        (j n : ℕ)
        → ((j == i) ≡ false) × (connection (phase j) ≡ some n)
        → 0 < times n (given_back c lent)
    kept j n (other, e) = elim (Bool-cases (c == n)) [
      | inl same ↦
          let both = v.apart j i n e (mine ∙ ap some ((==_iff c n).0 same)) in
          absurd (ground (arith, both, other, ==_iff j i))
      | inr differs ↦ subst (λ t. 0 < t) (sym (times-given_back c n lent differs)) (v.held j n e)
    ]

-- A thread that gets a connection which nobody had.
pub IsHolding-taken :
    (i c : ℕ) (p : PageId) (phase : ℕ → Phase) (lent : List ℕ)
    → times c lent ≡ 0
    → IsHolding phase lent
    → IsHolding (set_at i (fetches p c) phase) (c ∷ lent)
IsHolding-taken i c p phase lent fresh v = record { held = held'; apart = apart' }
  where
    held' :
        (j n : ℕ) → connection (set_at i (fetches p c) phase j) ≡ some n → 0 < times n (c ∷ lent)
    held' j n e = elim (Bool-cases (j == i)) [
      | inl same ↦ ground (arith, some-inj {x = c} {y = n} (rw same at e), ==_refl c)
      | inr other ↦ let h = v.held j n (rw other at e) in ground (arith, h)
    ]

    other_differs : (j n : ℕ) → connection (phase j) ≡ some n → c ≡ n → ⊥
    other_differs j n e same = let h = v.held j n e in ground (arith, h, fresh, same)

    apart' :
        (j k n : ℕ)
        → connection (set_at i (fetches p c) phase j) ≡ some n
        → connection (set_at i (fetches p c) phase k) ≡ some n
        → j ≡ k
    apart' j k n e e' = elim (Bool-cases (j == i)) [
      | inl a ↦ elim (Bool-cases (k == i)) [
        | inl b ↦ (==_iff j i).0 a ∙ sym ((==_iff k i).0 b)
        | inr b ↦ absurd (other_differs k n (rw b at e') (some-inj (rw a at e)))
      ]
      | inr a ↦ elim (Bool-cases (k == i)) [
        | inl b ↦ absurd (other_differs j n (rw a at e) (some-inj (rw b at e')))
        | inr b ↦ v.apart j k n (rw a at e) (rw b at e')
      ]
    ]
