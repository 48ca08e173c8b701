-- ===== src/PageCache/Objects.antt =====
-- src/ha_serverless.cc: the page objects behind the cache's pointers, which `evict_page_from_cache`
-- and the destructor of the handler delete.
use mariadb_serverless_engin.Base.{
  ℕ, suc, ◌<◌, ◌≡◌, refl, false, List, [], ◌∷◌, Option, none, some, if◌then◌else◌, arith, length,
  leb, ◌>>=◌, sym, ap, ◌∙◌, inl, inr, Bool-cases, Option-cases, ==_refl,
}
use mariadb_serverless_engin.Types.{PageId}
use mariadb_serverless_engin.PageCache.{
  CachedPage, Pages, Cache, find, erase, assign, back, add_page, evict_page_from_cache,
  max_cached_pages,
}
use mariadb_serverless_engin.PageCache.Maps.{is_cached}

-- The destructor: the objects that it deletes, one for each entry, and what is left.
unfoldable pub destroy_pages : Pages → List CachedPage × Pages
destroy_pages [] = ([], [])
destroy_pages ((k, page) ∷ pages) =
    let (deleted, rest) = destroy_pages pages in (page ∷ deleted, rest)

erase-absent : (key : ℕ) (pages : Pages) → is_cached key pages ≡ false → erase key pages ≡ pages
unfolding erase
erase-absent key [] h = refl
erase-absent key ((k, page) ∷ pages) h = ground (arith, erase-absent key pages)

erase_head :
    (key : ℕ) (page : CachedPage) (pages : Pages)
    → erase key ((key, page) ∷ pages) ≡ erase key pages
unfolding erase
erase_head key page pages = ground (arith, ==_refl key)

module _ {ℓ} {S : Type ℓ} (flush : PageId → List ℕ → S → S) where
  -- `evict_page_from_cache` with the object that it deletes.
  unfoldable pub evict_objects : ℕ → Cache → S → List CachedPage × Cache × S
  unfolding evict_page_from_cache
  evict_objects key c s =
      let (c', s') = evict_page_from_cache flush key c s in
      (elim (find key c.page_cache) [ none ↦ [] | some page ↦ page ∷ [] ], c', s')

  -- The adding of a page with the objects that it deletes: `page_cache[key] = new_page` deletes none.
  unfoldable pub add_objects : ℕ → CachedPage → Cache → S → Option (List CachedPage × Cache × S)
  unfolding evict_objects
  add_objects key page c s =
      (if leb max_cached_pages (length c.page_cache)
        then (back c.lru_list >>= λ oldest. some (evict_objects oldest c s))
        else some ([], c, s))
      >>= λ (deleted, c', s'). some (
        deleted,
        record { page_cache = assign key page c'.page_cache; lru_list = key ∷ c'.lru_list },
        s',
      )

  added : ℕ → CachedPage → Cache → Cache
  added key page c = record {
    page_cache = assign key page c.page_cache;
    lru_list = key ∷ c.lru_list;
  }

  add_objects-room :
      (key : ℕ) (page : CachedPage) (c : Cache) (s : S)
      → length c.page_cache < max_cached_pages
      → add_objects key page c s ≡ some ([], added key page c, s)
  unfolding add_objects added
  add_objects-room key page c s h =
      let room : leb max_cached_pages (length c.page_cache) ≡ false = ground arith in
      rw (room, ◌>>=◌)

  -- Its cache and its state are those of `add_page`.
  add_objects-add_page :
      (key : ℕ) (page : CachedPage) (c : Cache) (s : S)
      → (add_objects key page c s >>= λ (deleted, c', s'). some (c', s'))
        ≡ add_page flush key page c s
  unfolding add_objects add_page
  add_objects-add_page key page c s =
      elim (Bool-cases (leb max_cached_pages (length c.page_cache))) [
        | inr room ↦ rw (room, ◌>>=◌) refl
        | inl full ↦ elim (Option-cases (back c.lru_list)) [
          | inl empty ↦ rw (full, empty, ◌>>=◌) refl
          | inr (oldest, last) ↦ rw (full, last, ◌>>=◌) refl
        ]
      ]

  -- Adding a page where there is room evicts nothing.
  add_page-room :
      (key : ℕ) (page : CachedPage) (c : Cache) (s : S)
      → length c.page_cache < max_cached_pages
      → add_page flush key page c s ≡ some (added key page c, s)
  add_page-room key page c s h =
      sym (add_objects-add_page key page c s)
      ∙ ap (λ r. r >>= λ (deleted, c', s'). some (c', s')) (add_objects-room key page c s h)

  -- Two threads that fetch one page at a time, where it is not cached and there is room, both add an
  -- object for it. The first is what a look-up finds until the second takes its place. Neither adding
  -- deletes an object, and the destructor then deletes the second and those that were there before:
  -- nothing deletes the first. The list names the page twice.
  pub second_add_leaks :
      (key : ℕ) (a b : CachedPage) (c : Cache) (s : S)
      → is_cached key c.page_cache ≡ false
      → suc (length c.page_cache) < max_cached_pages
      → (c' : Cache) × (c'' : Cache) × (add_page flush key a c s ≡ some (c', s))
        × (add_page flush key b c' s ≡ some (c'', s))
        × (find key c'.page_cache ≡ some a)
        × (find key c''.page_cache ≡ some b)
        × (add_objects key a c s ≡ some ([], c', s))
        × (add_objects key b c' s ≡ some ([], c'', s))
        × ((destroy_pages c''.page_cache).0 ≡ b ∷ (destroy_pages c.page_cache).0)
        × (c''.lru_list ≡ key ∷ key ∷ c.lru_list)
  unfolding added assign destroy_pages find
  second_add_leaks key a b c s absent room =
      let c1 = added key a c in
      let c2 = added key b c1 in
      let first : erase key c.page_cache ≡ c.page_cache = erase-absent key c.page_cache absent in
      let second : erase key c1.page_cache ≡ c.page_cache =
        ground (arith, first, ==_refl key, erase_head key a (erase key c.page_cache)) in
      (
        c1,
        c2,
        add_page-room key a c s (omega arith),
        add_page-room key b c1 s (rw first (omega arith)),
        rw (==_refl key) refl,
        rw (==_refl key) refl,
        add_objects-room key a c s (omega arith),
        add_objects-room key b c1 s (rw first (omega arith)),
        rw second refl,
        refl,
      )
