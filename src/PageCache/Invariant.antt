-- ===== src/PageCache/Invariant.antt =====
-- src/ha_serverless.cc: what each critical section keeps true of the page cache.
use mariadb_serverless_engin.Base.{
  ℕ, ◌≤◌, ◌<◌, ◌≡◌, refl, sym, ap, subst, ◌∙◌, inl, inr, true, false, List, [], ◌∷◌, Option, none,
  some, arith, length, has, leb, ==_refl, ◌>>=◌, Bool-cases, Option-cases,
}
use mariadb_serverless_engin.Types.{PageId}
use mariadb_serverless_engin.PageCache.{
  CachedPage, Pages, Cache, find, erase, assign, back, look_up, evict_page_from_cache, add_page,
  flush_all, max_cached_pages,
}
use mariadb_serverless_engin.PageCache.Maps.{
  is_cached, is_cached-find, find-none, is_cached-erase, has-remove, Unique, Unique-erase,
  length-erase-le, length-erase-lt, back-has, back-some, find-assign_self, nonempty_key,
}

abbrev pub IsClean : Pages → Type 0
IsClean [] = Unit
IsClean ((k, page) ∷ pages) = (page.dirty ≡ false) × IsClean pages

-- The list names exactly the cached pages, no page is cached twice or dirty, and the cache is
-- within its limit.
pub record IsCoherent (c : Cache) : Type 0 where
  pub listed : (k : ℕ) → has k c.lru_list ≡ is_cached k c.page_cache
  pub unique : Unique c.page_cache
  pub clean : IsClean c.page_cache
  pub bounded : length c.page_cache ≤ max_cached_pages

IsClean-erase : (key : ℕ) (pages : Pages) → IsClean pages → IsClean (erase key pages)
unfolding erase
IsClean-erase key [] h = tt
IsClean-erase key ((k, p) ∷ pages) h = ground (arith, IsClean-erase key pages h.1)

IsClean-find :
    (key : ℕ) (pages : Pages) {page : CachedPage}
    → IsClean pages
    → find key pages ≡ some page
    → page.dirty ≡ false
unfolding find
IsClean-find key [] h e = cc
IsClean-find key ((k, p) ∷ pages) {page} h e =
    ground (arith, IsClean-find key pages {page = page} h.1)

erased : (key : ℕ) (pages : Pages) → is_cached key (erase key pages) ≡ false
erased key pages = ground (arith, is_cached-erase key key pages, ==_refl key)

-- A page may be replaced by a clean one under its key.
replaced-IsCoherent :
    (key : ℕ) (page : CachedPage) (c : Cache)
    → IsCoherent c
    → is_cached key c.page_cache ≡ true
    → page.dirty ≡ false
    → IsCoherent (record c { page_cache = assign key page c.page_cache })
unfolding assign
replaced-IsCoherent key page c v old fresh = record {
  listed = λ k. ground (arith, v.listed k, is_cached-erase k key c.page_cache);
  unique = (erased key c.page_cache, Unique-erase key c.page_cache v.unique);
  clean = (fresh, IsClean-erase key c.page_cache v.clean);
  bounded = omega (arith, length-erase-lt key c.page_cache old);
}

-- A clean page may be added, and its key put on the list, where there is room.
added-IsCoherent :
    (key : ℕ) (page : CachedPage) (c : Cache)
    → IsCoherent c
    → length c.page_cache < max_cached_pages
    → page.dirty ≡ false
    → IsCoherent (record { page_cache = assign key page c.page_cache; lru_list = key ∷ c.lru_list })
unfolding assign
added-IsCoherent key page c v room fresh = record {
  listed = λ k. ground (arith, v.listed k, is_cached-erase k key c.page_cache);
  unique = (erased key c.page_cache, Unique-erase key c.page_cache v.unique);
  clean = (fresh, IsClean-erase key c.page_cache v.clean);
  bounded = omega (arith, length-erase-le key c.page_cache);
}

unfoldable pub touched : ℕ → CachedPage → CachedPage
touched now page = record page { last_access = now }

pub look_up-hit :
    (key now : ℕ) (c : Cache) (page : CachedPage)
    → find key c.page_cache ≡ some page
    → look_up key now c
      ≡ some (page.bytes, record c { page_cache = assign key (touched now page) c.page_cache })
unfolding look_up touched
look_up-hit key now c page e = rw (e, ◌>>=◌)

pub look_up-miss :
    (key now : ℕ) (c : Cache) → find key c.page_cache ≡ none → look_up key now c ≡ none
unfolding look_up
look_up-miss key now c e = rw (e, ◌>>=◌)

-- A hit gives the bytes cached under the key, keeps the cache coherent, and leaves the order of the
-- list alone: a page that is used is no safer from eviction.
pub look_up-IsCoherent :
    (key now : ℕ) (c c' : Cache) (bytes : List ℕ)
    → IsCoherent c
    → look_up key now c ≡ some (bytes, c')
    → IsCoherent c'
      × (c'.lru_list ≡ c.lru_list)
      × ((page : CachedPage) × (find key c.page_cache ≡ some page) × (bytes ≡ page.bytes))
unfolding touched
look_up-IsCoherent key now c c' bytes v e = elim (Option-cases (find key c.page_cache)) [
  | inl miss ↦ cc (e, look_up-miss key now c miss)
  | inr (page, hit) ↦ found page hit (sym (look_up-hit key now c page hit) ∙ e)
]
  where
    found :
        (page : CachedPage)
        → find key c.page_cache ≡ some page
        → ◌≡◌ {A = Option (List ℕ × Cache)}
            (some
              (page.bytes, record c { page_cache = assign key (touched now page) c.page_cache }))
            (some (bytes, c'))
        → IsCoherent c'
          × (c'.lru_list ≡ c.lru_list)
          × ((p : CachedPage) × (find key c.page_cache ≡ some p) × (bytes ≡ p.bytes))
    found page hit same =
        let stored : record c { page_cache = assign key (touched now page) c.page_cache } ≡ c' =
          ground arith in
        let fresh : (touched now page).dirty ≡ false = IsClean-find key c.page_cache v.clean hit in
        (
          subst IsCoherent stored (
              replaced-IsCoherent key (touched now page) c v (is_cached-find key c.page_cache hit)
                fresh),
          sym (ap (λ (d : Cache). d.lru_list) stored),
          (page, hit, ground arith),
        )

module _ {ℓ} {S : Type ℓ} (flush : PageId → List ℕ → S → S) where
  pub evict-IsCoherent :
      (key : ℕ) (c : Cache) (s : S)
      → IsCoherent c
      → is_cached key c.page_cache ≡ true
      → let (c', s') = evict_page_from_cache flush key c s in
        IsCoherent c' × (s' ≡ s) × (length c'.page_cache < length c.page_cache)
  unfolding evict_page_from_cache
  evict-IsCoherent key c s v old = elim (Option-cases (find key c.page_cache)) [
    | inl miss ↦ cc (old, find-none key c.page_cache miss)
    | inr (page, hit) ↦
        rw (hit, evict_page_from_cache)
          (rw (IsClean-find key c.page_cache v.clean hit) (
            record {
              listed = λ k. ground (
                arith,
                v.listed k,
                has-remove k key c.lru_list,
                is_cached-erase k key c.page_cache,
              );
              unique = Unique-erase key c.page_cache v.unique;
              clean = IsClean-erase key c.page_cache v.clean;
              bounded = omega (arith, length-erase-le key c.page_cache);
            },
            refl,
            length-erase-lt key c.page_cache old,
          ))
  ]

  -- A coherent cache that is not empty names a page to evict.
  pub oldest :
      (c : Cache)
      → IsCoherent c
      → 0 < length c.page_cache
      → (key : ℕ) × (back c.lru_list ≡ some key) × (is_cached key c.page_cache ≡ true)
  oldest c v h =
      let (k, cached) = nonempty_key c.page_cache h in
      let (key, last) = back-some c.lru_list k (v.listed k ∙ cached) in
      (key, last, sym (v.listed key) ∙ back-has c.lru_list last)

  -- Adding a page always has a defined result, keeps the cache coherent and within its limit, and
  -- writes nothing out: also where the key has been cached meanwhile by another thread.
  pub add_page-IsCoherent :
      (key : ℕ) (page : CachedPage) (c : Cache) (s : S)
      → IsCoherent c
      → page.dirty ≡ false
      → (c' : Cache) × (add_page flush key page c s ≡ some (c', s))
        × IsCoherent c'
        × (find key c'.page_cache ≡ some page)
  unfolding add_page
  add_page-IsCoherent key page c s v fresh =
      elim (Bool-cases (leb max_cached_pages (length c.page_cache))) [
        | inl full ↦
            let (key', last, old) = oldest c v (ground arith) in
            let (coherent, same, smaller) = evict-IsCoherent key' c s v old in
            let c' = (evict_page_from_cache flush key' c s).0 in
            rw (full, last, ◌>>=◌)
              (
                record { page_cache = assign key page c'.page_cache; lru_list = key ∷ c'.lru_list },
                rw same,
                added-IsCoherent key page c' coherent (omega (arith, v.bounded)) fresh,
                find-assign_self key page c'.page_cache,
              )
        | inr room ↦
            rw (room, ◌>>=◌)
              (
                _,
                refl,
                added-IsCoherent key page c v (ground arith) fresh,
                find-assign_self key page c.page_cache,
              )
      ]

  -- A coherent cache has nothing to write when its table is closed.
  pub flush_all-IsClean : (pages : Pages) (s : S) → IsClean pages → flush_all flush pages s ≡ s
  unfolding flush_all
  flush_all-IsClean [] s h = refl
  flush_all-IsClean ((k, page) ∷ pages) s h = rw h.0 (flush_all-IsClean pages s h.1)

abbrev pub after_look : ℕ → ℕ → Cache → Cache
after_look key now c = elim (look_up key now c) [ none ↦ c | some (bytes, c') ↦ c' ]

pub after_look-IsCoherent :
    (key now : ℕ) (c : Cache)
    → IsCoherent c
    → IsCoherent (after_look key now c) × ((after_look key now c).lru_list ≡ c.lru_list)
after_look-IsCoherent key now c v = elim (Option-cases (look_up key now c)) [
  | inl miss ↦ rw (miss, after_look) (v, refl)
  | inr ((bytes, c'), hit) ↦
      let (v', same, _) = look_up-IsCoherent key now c c' bytes v hit in
      rw (hit, after_look) (v', same)
]
