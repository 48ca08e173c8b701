-- ===== src/PageCache/Readers.antt =====
-- src/ha_serverless.cc, `read_page_from_cache_or_pageserver`: many threads that read through one
-- cache. Each passes a critical section, is without the lock while the pageserver answers, and
-- passes another if the page was not cached.
use mariadb_serverless_engin.Base.{
  some-inj, ℕ, ◌≡◌, refl, sym, ap, ◌∙◌, subst, List, [], ◌∷◌, ◌++◌, none, some, All, arith,
  Option-cases, inl, inr,
}
use mariadb_serverless_engin.Types.{PageId}
use mariadb_serverless_engin.Timeline.{page_key}
use mariadb_serverless_engin.PageCache.{Cache, new_cached_page, find, look_up, add_page}
use mariadb_serverless_engin.PageCache.Invariant.{
  IsCoherent, look_up-hit, look_up-miss, look_up-IsCoherent, add_page-IsCoherent,
}
use mariadb_serverless_engin.PageCache.Faithful.{
  IsNarrow, IsFaithful, look_up-IsFaithful, add_page-IsFaithful,
}

-- The cache, the pages that threads are fetching, and what the reads that have returned gave.
pub record Readers : Type 0 where
  pub cache : Cache
  pub fetching : List PageId
  pub given : List (PageId × List ℕ)

module _ {ℓ} (served : PageId → List ℕ) {S : Type ℓ} (flush : PageId → List ℕ → S → S)
    (s0 : S) where
  -- A hit returns; a miss begins to fetch; a fetch fails, or brings the server's page, which is added
  -- and returned.
  pub data Step (s : Readers) : Readers → Type ℓ where
    hits :
        (p : PageId) (now : ℕ) {bytes : List ℕ} {c' : Cache}
        → IsNarrow p
        → look_up (page_key p) now s.cache ≡ some (bytes, c')
        → Step s (record s { cache = c'; given = (p, bytes) ∷ s.given })
    misses :
        (p : PageId) (now : ℕ)
        → IsNarrow p
        → look_up (page_key p) now s.cache ≡ none
        → Step s (record s { fetching = p ∷ s.fetching })
    fails :
        (p : PageId) (before after : List PageId)
        → s.fetching ≡ before ++ p ∷ after
        → Step s (record s { fetching = before ++ after })
    adds :
        (p : PageId) (before after : List PageId) (now : ℕ) {c' : Cache}
        → s.fetching ≡ before ++ p ∷ after
        → add_page flush (page_key p) (new_cached_page p (served p) now) s.cache s0 ≡ some (c', s0)
        → Step s
            (record s { cache = c'; fetching = before ++ after; given = (p, served p) ∷ s.given })

  pub data Reach (s : Readers) : Readers → Type ℓ where
    here : Reach s s
    next : {t u : Readers} → Reach s t → Step t u → Reach s u

  abbrev pub IsGiven : PageId × List ℕ → Type 0
  IsGiven (p, bytes) = bytes ≡ served p

  pub record IsRight (s : Readers) : Type 0 where
    pub coherent : IsCoherent s.cache
    pub faithful : All (IsFaithful served) s.cache.page_cache
    pub narrow : All IsNarrow s.fetching
    pub right : All IsGiven s.given

  -- One of several is taken out.
  All-split {κ} :
      (P : PageId → Type κ) (before after : List PageId) (p : PageId)
      → All P (before ++ p ∷ after)
      → P p × All P (before ++ after)
  All-split P [] after p h = h
  All-split P (q ∷ before) after p h =
      let (one, rest) = All-split P before after p h.1 in (one, (h.0, rest))

  pub look_up-some :
      (p : PageId) (now : ℕ) (c c' : Cache) (bytes : List ℕ)
      → IsNarrow p
      → All (IsFaithful served) c.page_cache
      → look_up (page_key p) now c ≡ some (bytes, c')
      → (bytes ≡ served p) × All (IsFaithful served) c'.page_cache
  look_up-some p now c c' bytes narrow f e = elim (Option-cases (find (page_key p) c.page_cache)) [
    | inl miss ↦ cc (e, look_up-miss (page_key p) now c miss)
    | inr (page, hit) ↦
        let same = some-inj (sym (look_up-hit (page_key p) now c page hit) ∙ e) in
        let (right, faithful) = look_up-IsFaithful served p now c {page = page} narrow f hit in
        (
          sym (ap (λ (r : List ℕ × Cache). r.0) same) ∙ right,
          subst (λ (r : List ℕ × Cache). All (IsFaithful served) r.1.page_cache) same faithful,
        )
  ]

  pub add_page-some :
      (p : PageId) (now : ℕ) (c c' : Cache)
      → IsCoherent c
      → add_page flush (page_key p) (new_cached_page p (served p) now) c s0 ≡ some (c', s0)
      → IsCoherent c'
  unfolding new_cached_page
  add_page-some p now c c' v added =
      let page = new_cached_page p (served p) now in
      let (c'', added'', v'', _) = add_page-IsCoherent flush (page_key p) page c s0 v refl in
      subst IsCoherent (ap (λ (r : Cache × S). r.0) (some-inj (sym added'' ∙ added))) v''

  Step-IsRight : {s t : Readers} → Step s t → IsRight s → IsRight t
  Step-IsRight {s} (hits p now {bytes} {c'} narrow e) v =
      let (right, faithful) = look_up-some p now s.cache c' bytes narrow v.faithful e in
      record {
        coherent = (look_up-IsCoherent (page_key p) now s.cache c' bytes v.coherent e).0;
        faithful = faithful;
        narrow = v.narrow;
        right = (right, v.right);
      }
  Step-IsRight (misses p now narrow e) v = record {
    coherent = v.coherent;
    faithful = v.faithful;
    narrow = (narrow, v.narrow);
    right = v.right;
  }
  Step-IsRight {s} (fails p before after e) v = record {
    coherent = v.coherent;
    faithful = v.faithful;
    narrow = (All-split IsNarrow before after p (subst (All IsNarrow) e v.narrow)).1;
    right = v.right;
  }
  Step-IsRight {s} (adds p before after now {c'} e added) v =
      let (narrow, others) = All-split IsNarrow before after p (subst (All IsNarrow) e v.narrow) in
      record {
        coherent = add_page-some p now s.cache c' v.coherent added;
        faithful = add_page-IsFaithful served flush p now s.cache c' s0 s0 narrow v.faithful added;
        narrow = others;
        right = (refl, v.right);
      }

  Reach-IsRight : {s t : Readers} → IsRight s → Reach s t → IsRight t
  Reach-IsRight v here = v
  Reach-IsRight v (next r st) = Step-IsRight st (Reach-IsRight v r)

  -- Let threads read pages with 32-bit timelines and numbers through one cache, empty at first, and
  -- let the pageserver give the same bytes whenever it gives a page. In whatever order the threads
  -- pass their critical sections, fetch, fail and evict, also where two of them fetch one page at a
  -- time, each read that returns gives what the pageserver has of its page, and the cache is coherent.
  pub Reach-given :
      {t : Readers}
      → Reach
          (record { cache = record { page_cache = []; lru_list = [] }; fetching = []; given = [] })
          t
      → All IsGiven t.given × IsCoherent t.cache
  Reach-given r = let v = Reach-IsRight empty r in (v.right, v.coherent)
    where
      empty :
          IsRight (record {
            cache = record { page_cache = []; lru_list = [] };
            fetching = [];
            given = [];
          })
      empty = record {
        coherent = record { listed = λ k. refl; unique = tt; clean = tt; bounded = omega arith };
        faithful = tt;
        narrow = tt;
        right = tt;
      }
