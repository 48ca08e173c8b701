-- ===== src/PageCache/Faithful.antt =====
-- src/ha_serverless.cc: a cache that holds what the server has.
use mariadb_serverless_engin.Base.{
  ℕ, ◌^◌, ◌<◌, ◌≡◌, refl, sym, ap, ◌∙◌, List, [], ◌∷◌, some, arith, All, ◌==◌, ==_iff, Bool-cases,
  inl, inr, Option-cases, leb, length, subst,
}
use mariadb_serverless_engin.Types.{PageId}
use mariadb_serverless_engin.Timeline.{page_key, page_key-eq_iff}
use mariadb_serverless_engin.PageCache.{
  CachedPage, Pages, Cache, look_up, find, erase, assign, back, new_cached_page, add_page,
  evict_page_from_cache, max_cached_pages,
}
use mariadb_serverless_engin.PageCache.Invariant.{
  IsCoherent, touched, look_up-hit, look_up-IsCoherent,
}

-- A page that the key tells from every other such page.
pub record IsNarrow (p : PageId) : Type 0 where
  pub timeline : p.timeline_id < 2 ^ 32
  pub number : p.page_number < 2 ^ 32

module _ (served : PageId → List ℕ) where
  -- An entry under its own key, with the bytes that the server has.
  pub record IsFaithful (entry : ℕ × CachedPage) : Type 0 where
    pub own_key : entry.0 ≡ page_key entry.1.page_id
    pub narrow : IsNarrow entry.1.page_id
    pub same_bytes : entry.1.bytes ≡ served entry.1.page_id

  erase-IsFaithful :
      (key : ℕ) (pages : Pages) → All IsFaithful pages → All IsFaithful (erase key pages)
  unfolding erase
  erase-IsFaithful key [] f = tt
  erase-IsFaithful key ((k, page) ∷ pages) f = elim (Bool-cases (k == key)) [
    | inl hit ↦ rw hit (erase-IsFaithful key pages f.1)
    | inr miss ↦ rw miss (f.0, erase-IsFaithful key pages f.1)
  ]

  pub assign-IsFaithful :
      (key : ℕ) (page : CachedPage) (pages : Pages)
      → IsFaithful (key, page)
      → All IsFaithful pages
      → All IsFaithful (assign key page pages)
  unfolding assign
  assign-IsFaithful key page pages new f = (new, erase-IsFaithful key pages f)

  find-IsFaithful :
      (key : ℕ) (pages : Pages) {page : CachedPage}
      → All IsFaithful pages
      → find key pages ≡ some page
      → IsFaithful (key, page)
  unfolding find
  find-IsFaithful key [] f e = cc
  find-IsFaithful key ((k, page') ∷ pages) {page} f e = elim (Bool-cases (k == key)) [
    | inl hit ↦ ground (arith, ==_iff k key, f.0)
    | inr miss ↦ find-IsFaithful key pages {page = page} f.1 (rw miss at e)
  ]

  -- A narrow page that is found under its key is the page that was asked for.
  found_page : (p q : PageId) → IsNarrow p → IsNarrow q → page_key p ≡ page_key q → p ≡ q
  found_page p q a b e =
      let (timelines, numbers) = (page_key-eq_iff p q a.number b.number).0 e in
      same (omega (arith, a.timeline, b.timeline)) numbers
    where
      same : p.timeline_id ≡ q.timeline_id → p.page_number ≡ q.page_number → p ≡ q
      same s t = ground arith

  -- A hit for a narrow page gives what the server has of it.
  pub look_up-IsFaithful :
      (p : PageId) (now : ℕ) (c : Cache) {page : CachedPage}
      → IsNarrow p
      → All IsFaithful c.page_cache
      → find (page_key p) c.page_cache ≡ some page
      → (page.bytes ≡ served p)
        × All IsFaithful (assign (page_key p) (touched now page) c.page_cache)
  unfolding touched
  look_up-IsFaithful p now c {page} narrow f hit =
      let v = find-IsFaithful (page_key p) c.page_cache {page = page} f hit in
      (
        v.same_bytes ∙ ap served (sym (found_page p page.page_id narrow v.narrow v.own_key)),
        assign-IsFaithful (page_key p) (touched now page) c.page_cache
            (record { own_key = v.own_key; narrow = v.narrow; same_bytes = v.same_bytes }) f,
      )

module _ {ℓ} (served : PageId → List ℕ) {S : Type ℓ} (flush : PageId → List ℕ → S → S) where
  evict-IsFaithful :
      (key : ℕ) (c : Cache) (s : S)
      → All (IsFaithful served) c.page_cache
      → All (IsFaithful served) (evict_page_from_cache flush key c s).0.page_cache
  unfolding evict_page_from_cache
  evict-IsFaithful key c s f = elim (Option-cases (find key c.page_cache)) [
    | inl miss ↦ rw (miss, evict_page_from_cache) f
    | inr (page, hit) ↦ rw (hit, evict_page_from_cache) (erase-IsFaithful served key c.page_cache f)
  ]

  -- Adding a page that the server gave.
  pub add_page-IsFaithful :
      (p : PageId) (now : ℕ) (c c' : Cache) (s s' : S)
      → IsNarrow p
      → All (IsFaithful served) c.page_cache
      → add_page flush (page_key p) (new_cached_page p (served p) now) c s ≡ some (c', s')
      → All (IsFaithful served) c'.page_cache
  unfolding add_page new_cached_page
  add_page-IsFaithful p now c c' s s' narrow f e =
      let page = new_cached_page p (served p) now in
      let new : IsFaithful served (page_key p, page) = record {
        own_key = refl;
        narrow = narrow;
        same_bytes = refl;
      } in
      elim (Bool-cases (leb max_cached_pages (length c.page_cache))) [
        | inl full ↦ elim (Option-cases (back c.lru_list)) [
          | inl empty ↦ absurd (ground arith)
          | inr (oldest, last) ↦
              let d = (evict_page_from_cache flush oldest c s).0 in
              let stored : assign (page_key p) page d.page_cache ≡ c'.page_cache = ground arith in
              subst (All (IsFaithful served)) stored (
                assign-IsFaithful served (page_key p) page d.page_cache new
                  (evict-IsFaithful oldest c s f))
        ]
        | inr room ↦
            let stored : assign (page_key p) page c.page_cache ≡ c'.page_cache = ground arith in
            subst (All (IsFaithful served)) stored
              (assign-IsFaithful served (page_key p) page c.page_cache new f)
      ]

-- A hit in a coherent and faithful cache gives the server's page, and leaves such a cache.
pub look_up-served :
    (served : PageId → List ℕ) (p : PageId) (now : ℕ) (c : Cache) (page : CachedPage)
    → IsNarrow p
    → IsCoherent c
    → All (IsFaithful served) c.page_cache
    → find (page_key p) c.page_cache ≡ some page
    → (c' : Cache) × (look_up (page_key p) now c ≡ some (served p, c'))
      × IsCoherent c'
      × All (IsFaithful served) c'.page_cache
look_up-served served p now c page narrow coherent faithful hit =
    let (same, faithful') = look_up-IsFaithful served p now c {page = page} narrow faithful hit in
    let found = look_up-hit (page_key p) now c page hit in
    let c' = record c { page_cache = assign (page_key p) (touched now page) c.page_cache } in
    (
      c',
      found ∙ ap (λ bytes. some (bytes, c')) same,
      (look_up-IsCoherent (page_key p) now c c' page.bytes coherent found).0,
      faithful',
    )
