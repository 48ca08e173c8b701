-- ===== src/Handler/Threads/Sound.antt =====
-- src/ha_serverless.cc with src/connection_pool.cc: what many threads that read get.
use mariadb_serverless_engin.Base.{
  ℕ, suc, ◌≤◌, ◌≡◌, refl, sym, ap, ◌∙◌, subst, Bool, true, List, ◌∷◌, Option, none, some, All,
  arith, Bool-cases, inl, inr, ◌==◌, ==_iff, not, ◌||◌,
}
use mariadb_serverless_engin.Types.{PageId}
use mariadb_serverless_engin.Timeline.{page_key}
use mariadb_serverless_engin.Pool.{Ptr, get_finish}
use mariadb_serverless_engin.Pool.Lending as Lending
use mariadb_serverless_engin.Pool.Lending.{Warmth, times, taken}
use mariadb_serverless_engin.Pool.Lending.Once.{Reach-exclusive}
use mariadb_serverless_engin.PageCache.{Cache}
use mariadb_serverless_engin.PageCache.Invariant.{IsCoherent, look_up-IsCoherent}
use mariadb_serverless_engin.PageCache.Faithful.{IsNarrow, IsFaithful, add_page-IsFaithful}
use mariadb_serverless_engin.PageCache.Readers.{IsGiven, look_up-some, add_page-some}
use mariadb_serverless_engin.Handler.Threads.Holding.{
  Phase, idle, waits, fetches, leaves, connection, IsHolding-kept, set_at, IsHolding,
  IsHolding-without, IsHolding-returned, IsHolding-taken,
}
use mariadb_serverless_engin.Handler.Threads.{
  Threads, handed, Step, hits, asks, gets, fails, adds, returns, scales, Reach, here, next, start,
}

-- Whether two threads have different connections, or one has none.
abbrev pub apart : Option ℕ → Option ℕ → Bool
apart none other = true
apart (some m) none = true
apart (some m) (some n) = not (m == n)

module _ {ℓ} (served : PageId → List ℕ) {S : Type ℓ} (flush : PageId → List ℕ → S → S) (s0 : S)
    (constructs : ℕ → Bool) where
  -- The page that a thread is after has small numbers.
  abbrev IsNarrowPhase : Phase → Type 0
  IsNarrowPhase idle = Unit
  IsNarrowPhase (waits p) = IsNarrow p
  IsNarrowPhase (fetches p n) = IsNarrow p
  IsNarrowPhase (leaves n) = Unit

  record IsCached (c : Cache) : Type 0 where
    coherent : IsCoherent c
    faithful : All (IsFaithful served) c.page_cache

  record IsSound (w : Warmth) (min max : ℕ) (s : Threads) : Type 0 where
    lending : Lending.Reach constructs (Lending.start w constructs min max) s.pool
    holding : IsHolding s.phase s.pool.lent
    narrow : (i : ℕ) → IsNarrowPhase (s.phase i)
    cached : (i : ℕ) → IsCached (s.cache i)
    right : All (IsGiven served flush s0) s.given

  set_at-all {κ ν} :
      {A : Type κ} (P : A → Type ν) (i : ℕ) (x : A) (f : ℕ → A)
      → P x
      → ((j : ℕ) → P (f j))
      → (j : ℕ) → P (set_at i x f j)
  set_at-all P i x f new old j = elim (Bool-cases (j == i)) [
    | inl same ↦ rw same new
    | inr other ↦ rw other (old j)
  ]

  handed-IsNarrow : (p : PageId) (got : Ptr) → IsNarrow p → IsNarrowPhase (handed p got)
  handed-IsNarrow p none v = tt
  handed-IsNarrow p (some n) v = v

  -- What the pool hands out is held by no thread.
  fresh :
      (w : Warmth) (min max k n : ℕ) (s : Lending.System)
      → Lending.Reach constructs (Lending.start w constructs min max) s
      → s.waiting ≡ suc k
      → (get_finish constructs s.side).0 ≡ some n
      → times n s.lent ≡ 0
  fresh w min max k n s r waiting got =
      let once =
        Reach-exclusive w min max n (Lending.Reach.next r (Lending.Step.finishes k waiting)) in
      let same : taken (get_finish constructs s.side).0 s.lent ≡ n ∷ s.lent =
        ap (λ g. taken g s.lent) got in
      let counted : times n (n ∷ s.lent) ≤ 1 =
        subst (λ l. times n l ≤ 1) same (omega (arith, once)) in
      ground (arith, counted)

  got-IsHolding :
      (i : ℕ) (p : PageId) (got : Ptr) (phase : ℕ → Phase) (lent : List ℕ)
      → ((n : ℕ) → got ≡ some n → times n lent ≡ 0)
      → IsHolding phase lent
      → IsHolding (set_at i (handed p got) phase) (taken got lent)
  got-IsHolding i p none phase lent new v = IsHolding-without i idle phase lent refl v
  got-IsHolding i p (some n) phase lent new v = IsHolding-taken i n p phase lent (new n refl) v

  Step-IsSound :
      (w : Warmth) (min max : ℕ) {s t : Threads}
      → Step served flush s0 constructs s t
      → IsSound w min max s
      → IsSound w min max t
  Step-IsSound w min max {s} (hits i now p {bytes} {c'} at_rest narrow e) v =
      let (right, faithful) =
        look_up-some served flush s0 p now (s.cache i) c' bytes narrow (v.cached i).faithful e in
      record {
        lending = v.lending;
        holding = v.holding;
        narrow = v.narrow;
        cached =
            set_at-all IsCached i c' s.cache
              (record {
                coherent =
                    (look_up-IsCoherent (page_key p) now (s.cache i) c' bytes (v.cached i).coherent
                      e).0;
                faithful = faithful;
              })
              v.cached;
        right = (right, v.right);
      }
  Step-IsSound w min max {s} (asks i now p at_rest narrow e) v = record {
    lending = Lending.Reach.next v.lending Lending.Step.begins;
    holding = IsHolding-without i (waits p) s.phase s.pool.lent refl v.holding;
    narrow = set_at-all IsNarrowPhase i (waits p) s.phase narrow v.narrow;
    cached = v.cached;
    right = v.right;
  }
  Step-IsSound w min max {s} (gets i k p at_wait waiting) v =
      let got = (get_finish constructs s.pool.side).0 in
      let narrow : IsNarrow p = subst IsNarrowPhase at_wait (v.narrow i) in
      record {
        lending = Lending.Reach.next v.lending (Lending.Step.finishes k waiting);
        holding =
            got-IsHolding i p got s.phase s.pool.lent
              (λ n e. fresh w min max k n s.pool v.lending waiting e) v.holding;
        narrow =
            set_at-all IsNarrowPhase i (handed p got) s.phase (handed-IsNarrow p got narrow)
              v.narrow;
        cached = v.cached;
        right = v.right;
      }
  Step-IsSound w min max {s} (fails i n p at_fetch) v = record {
    lending = v.lending;
    holding =
        IsHolding-kept i (leaves n) s.phase s.pool.lent (sym (ap connection at_fetch)) v.holding;
    narrow = set_at-all IsNarrowPhase i (leaves n) s.phase tt v.narrow;
    cached = v.cached;
    right = v.right;
  }
  Step-IsSound w min max {s} (adds i n now p {c'} at_fetch e) v =
      let narrow : IsNarrow p = subst IsNarrowPhase at_fetch (v.narrow i) in
      record {
        lending = v.lending;
        holding =
            IsHolding-kept i (leaves n) s.phase s.pool.lent (sym (ap connection at_fetch))
              v.holding;
        narrow = set_at-all IsNarrowPhase i (leaves n) s.phase tt v.narrow;
        cached =
            set_at-all IsCached i c' s.cache
              (record {
                coherent =
                    add_page-some served flush s0 p now (s.cache i) c' (v.cached i).coherent e;
                faithful =
                    add_page-IsFaithful served flush p now (s.cache i) c' s0 s0 narrow
                      (v.cached i).faithful e;
              })
              v.cached;
        right = (refl, v.right);
      }
  Step-IsSound w min max {s} (returns i n at_end) v =
      let mine = ap connection at_end in
      record {
        lending = Lending.Reach.next v.lending (Lending.Step.returns n (v.holding.held i n mine));
        holding = IsHolding-returned i n idle s.phase s.pool.lent mine refl v.holding;
        narrow = set_at-all IsNarrowPhase i idle s.phase tt v.narrow;
        cached = v.cached;
        right = v.right;
      }
  Step-IsSound w min max {s} scales v = record {
    lending = Lending.Reach.next v.lending Lending.Step.scales;
    holding = v.holding;
    narrow = v.narrow;
    cached = v.cached;
    right = v.right;
  }

  Reach-IsSound :
      (w : Warmth) (min max : ℕ) {t : Threads}
      → Reach served flush s0 constructs (start w constructs min max) t
      → IsSound w min max t
  Reach-IsSound w min max here = record {
    lending = Lending.Reach.here;
    holding = record { held = λ i n e. absurd (cc e); apart = λ i j n e e'. absurd (cc e) };
    narrow = λ i. tt;
    cached = λ i. record {
      coherent = record { listed = λ k. refl; unique = tt; clean = tt; bounded = omega arith };
      faithful = tt;
    };
    right = tt;
  }
  Reach-IsSound w min max (next r st) = Step-IsSound w min max st (Reach-IsSound w min max r)

  holding-apart :
      (phase : ℕ → Phase) (lent : List ℕ) (i j : ℕ) (a b : Option ℕ)
      → IsHolding phase lent
      → connection (phase i) ≡ a
      → connection (phase j) ≡ b
      → ((i == j) || apart a b) ≡ true
  holding-apart phase lent i j none b v e e' = ground arith
  holding-apart phase lent i j (some m) none v e e' = ground arith
  holding-apart phase lent i j (some m) (some n) v e e' = elim (Bool-cases (m == n)) [
    | inr differ ↦ ground (arith, differ)
    | inl same ↦
        let one = v.apart i j n (e ∙ ap some ((==_iff m n).0 same)) e' in
        ground (arith, one, ==_iff i j)
  ]

  -- Let threads, each with a handler and its cache, empty at first, read pages with 32-bit timelines and
  -- numbers through one pool, new, and warmed once or not, and let the pageserver give the same bytes
  -- whenever it gives a page. In whatever order the threads and the health thread act, also where gets
  -- come to nothing and reads fail, no two threads have one connection at a time, each read that
  -- gives a page gives what the pageserver has of it, and each cache is coherent.
  pub Reach-safe :
      (w : Warmth) (min max i j : ℕ) {t : Threads}
      → Reach served flush s0 constructs (start w constructs min max) t
      → (((i == j) || apart (connection (t.phase i)) (connection (t.phase j))) ≡ true)
        × All (IsGiven served flush s0) t.given
        × IsCoherent (t.cache i)
  Reach-safe w min max i j {t} r =
      let v = Reach-IsSound w min max r in
      (
        holding-apart t.phase t.pool.lent i j (connection (t.phase i)) (connection (t.phase j))
            v.holding refl refl,
        v.right,
        (v.cached i).coherent,
      )
