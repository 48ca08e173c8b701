-- ===== src/PageCache/Eviction.antt =====
-- src/ha_serverless.cc: which page is evicted.
use mariadb_serverless_engin.Base.{
  ℕ, ◌≡◌, refl, sym, ap, ◌∙◌, ◌≢◌, inl, inr, true, false, List, [], ◌∷◌, some, arith, length, leb,
  ==_refl, ◌>>=◌, Option-cases,
}
use mariadb_serverless_engin.Types.{PageId}
use mariadb_serverless_engin.PageCache.{
  CachedPage, Pages, Cache, find, erase, assign, back, evict_page_from_cache, add_page,
  max_cached_pages,
}
use mariadb_serverless_engin.PageCache.Maps.{
  is_cached, is_cached-find, find-none, is_cached-erase, length-erase, back-has,
}
use mariadb_serverless_engin.PageCache.Invariant.{
  IsCoherent, look_up-hit, look_up-miss, after_look, after_look-IsCoherent, evict-IsCoherent,
}

after_look-length :
    (key now : ℕ) (c : Cache)
    → IsCoherent c
    → length (after_look key now c).page_cache ≡ length c.page_cache
unfolding assign
after_look-length key now c v = elim (Option-cases (find key c.page_cache)) [
  | inl miss ↦ rw (look_up-miss key now c miss, after_look)
  | inr (page, hit) ↦
      rw (look_up-hit key now c page hit, after_look)
        (length-erase key c.page_cache v.unique (is_cached-find key c.page_cache hit))
]

-- The look-ups of a list of keys, each at a time.
abbrev pub looks_all : List (ℕ × ℕ) → Cache → Cache
looks_all [] c = c
looks_all ((key, now) ∷ looked) c = looks_all looked (after_look key now c)

looks_all-IsCoherent :
    (looked : List (ℕ × ℕ)) (c : Cache)
    → IsCoherent c
    → IsCoherent (looks_all looked c)
      × ((looks_all looked c).lru_list ≡ c.lru_list)
      × (length (looks_all looked c).page_cache ≡ length c.page_cache)
looks_all-IsCoherent [] c v = (v, refl, refl)
looks_all-IsCoherent ((key, now) ∷ looked) c v =
    let (v', same) = after_look-IsCoherent key now c v in
    let (v'', same', size) = looks_all-IsCoherent looked (after_look key now c) v' in
    (v'', same' ∙ same, size ∙ after_look-length key now c v)

gone :
    (key oldest : ℕ) (page : CachedPage) (c' d : Cache)
    → oldest ≢ key
    → c'.page_cache ≡ assign key page (erase oldest d.page_cache)
    → is_cached oldest c'.page_cache ≡ false
unfolding assign
gone key oldest page c' d other e = rw e (
    ground (
      arith,
      is_cached-erase oldest key (erase oldest d.page_cache),
      is_cached-erase oldest oldest d.page_cache,
    ))

kept : (key : ℕ) (page : CachedPage) (pages : Pages) → is_cached key (assign key page pages) ≡ true
unfolding assign
kept key page pages = ground (arith, ==_refl key)

module _ {ℓ} {S : Type ℓ} (flush : PageId → List ℕ → S → S) where
  evict_pages :
      (key : ℕ) (c : Cache) (s : S)
      → is_cached key c.page_cache ≡ true
      → (evict_page_from_cache flush key c s).0.page_cache ≡ erase key c.page_cache
  unfolding evict_page_from_cache
  evict_pages key c s old = elim (Option-cases (find key c.page_cache)) [
    | inl miss ↦ cc (old, find-none key c.page_cache miss)
    | inr (page, hit) ↦ rw (hit, evict_page_from_cache)
  ]

  full_add :
      (key oldest : ℕ) (page : CachedPage) (c : Cache) (s : S)
      → IsCoherent c
      → length c.page_cache ≡ max_cached_pages
      → back c.lru_list ≡ some oldest
      → (c' : Cache) × (add_page flush key page c s ≡ some (c', s))
        × (c'.page_cache ≡ assign key page (erase oldest c.page_cache))
  unfolding add_page
  full_add key oldest page c s v full last =
      let old : is_cached oldest c.page_cache ≡ true =
        sym (v.listed oldest) ∙ back-has c.lru_list last in
      let limit : leb max_cached_pages (length c.page_cache) ≡ true = rw full in
      let (_, same, _) = evict-IsCoherent flush oldest c s v old in
      let c' = (evict_page_from_cache flush oldest c s).0 in
      rw (limit, last, ◌>>=◌)
        (
          record { page_cache = assign key page c'.page_cache; lru_list = key ∷ c'.lru_list },
          rw same,
          ap (assign key page) (evict_pages oldest c s old),
        )

  -- Let a coherent cache have 1024 pages. If a page with a key other than that of the page added
  -- first is added, the latter goes, even if it has just been looked up, as often as you like:
  -- the cache does not evict the page that was used least recently.
  pub hits_do_not_protect :
      (looked : List (ℕ × ℕ)) (key oldest : ℕ) (page : CachedPage) (c : Cache) (s : S)
      → IsCoherent c
      → length c.page_cache ≡ max_cached_pages
      → back c.lru_list ≡ some oldest
      → oldest ≢ key
      → (c' : Cache) × (add_page flush key page (looks_all looked c) s ≡ some (c', s))
        × (is_cached oldest c'.page_cache ≡ false)
        × (is_cached key c'.page_cache ≡ true)
  hits_do_not_protect looked key oldest page c s v full last other =
      let (v', same, size) = looks_all-IsCoherent looked c v in
      let d = looks_all looked c in
      let last' : back d.lru_list ≡ some oldest = ap back same ∙ last in
      let (c', e, pages) = full_add key oldest page d s v' (size ∙ full) last' in
      (
        c',
        e,
        gone key oldest page c' d other pages,
        rw pages (kept key page (erase oldest d.page_cache)),
      )
