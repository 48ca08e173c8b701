-- ===== src/PageCache/Fifo.antt =====
-- src/ha_serverless.cc: one thread's accesses to the page cache, against a queue of keys of which the
-- oldest goes. A page that is asked for is looked up, and added if it was not there.
use mariadb_serverless_engin.Base.{
  ℕ, suc, ◌+◌, ◌<◌, ◌≡◌, refl, sym, ap, subst, ◌∙◌, true, false, List, [], ◌∷◌, some, arith, length,
  leb, has, ==_refl, ==_iff, if◌then◌else◌, ◌>>=◌, Bool-cases, inl, inr, some-inj, Option-cases,
}
use mariadb_serverless_engin.Types.{PageId}
use mariadb_serverless_engin.PageCache.{
  CachedPage, Cache, find, erase, assign, remove, back, look_up, evict_page_from_cache, add_page,
  max_cached_pages,
}
use mariadb_serverless_engin.PageCache.Invariant.{IsCoherent, look_up-hit, evict-IsCoherent, oldest}
use mariadb_serverless_engin.PageCache.Maps.{
  is_cached, is_cached-find, find-none, is_cached-erase, length-erase, length-absent_erase,
  back-has,
}

-- The queue: a key that is there stays in its place, a new one comes in front, and where there are
-- 1024 the last one goes.
abbrev pub without_last : List ℕ → List ℕ
without_last [] = []
without_last (k ∷ []) = []
without_last (k ∷ k' ∷ keys) = k ∷ without_last (k' ∷ keys)

abbrev pub access : ℕ → List ℕ → List ℕ
access key keys =
    if has key keys
    then keys
    else key ∷ (if leb max_cached_pages (length keys) then without_last keys else keys)

-- How many of some accesses in turn ask for a key that is not there.
abbrev pub misses : List ℕ → List ℕ → ℕ
misses keys [] = 0
misses keys (key ∷ later) = (if has key keys then 0 else 1) + misses (access key keys) later

abbrev pub Distinct : List ℕ → Type 0
Distinct [] = Unit
Distinct (k ∷ keys) = (has k keys ≡ false) × Distinct keys

-- The list names each page once.
pub record IsFifo (c : Cache) : Type 0 where
  pub distinct : Distinct c.lru_list
  pub sized : length c.page_cache ≡ length c.lru_list

remove-absent : (key : ℕ) (keys : List ℕ) → has key keys ≡ false → remove key keys ≡ keys
unfolding remove
remove-absent key [] h = refl
remove-absent key (k ∷ keys) h = ground (arith, remove-absent key keys)

-- To remove the last key is to cut it off.
remove-back :
    (keys : List ℕ) {key : ℕ}
    → Distinct keys
    → back keys ≡ some key
    → remove key keys ≡ without_last keys
unfolding remove back
remove-back [] d e = cc
remove-back (k ∷ []) {key} d e = ground (arith, ==_refl k)
remove-back (k ∷ k' ∷ keys) {key} d e = ground (
  arith,
  remove-back (k' ∷ keys) {key = key} d.1 e,
  back-has (k' ∷ keys) {key = key} e,
  d.0,
  ==_iff k key,
)

length-without_last :
    (k : ℕ) (keys : List ℕ) → suc (length (without_last (k ∷ keys))) ≡ length (k ∷ keys)
length-without_last k [] = omega arith
length-without_last k (k' ∷ keys) = omega (arith, length-without_last k' keys)

has-without_last : (j : ℕ) (keys : List ℕ) → has j keys ≡ false → has j (without_last keys) ≡ false
has-without_last j [] h = refl
has-without_last j (k ∷ []) h = refl
has-without_last j (k ∷ k' ∷ keys) h = ground (arith, has-without_last j (k' ∷ keys))

without_last-Distinct : (keys : List ℕ) → Distinct keys → Distinct (without_last keys)
without_last-Distinct [] d = tt
without_last-Distinct (k ∷ []) d = tt
without_last-Distinct (k ∷ k' ∷ keys) d =
    (has-without_last k (k' ∷ keys) d.0, without_last-Distinct (k' ∷ keys) d.1)

without_last-length :
    (keys : List ℕ) → 0 < length keys → suc (length (without_last keys)) ≡ length keys
without_last-length [] h = absurd (omega arith)
without_last-length (k ∷ keys) h = length-without_last k keys

-- A hit leaves the queue as it is.
pub look_up-IsFifo :
    (key now : ℕ) (c c' : Cache) (bytes : List ℕ) (page : CachedPage)
    → IsCoherent c
    → IsFifo c
    → find key c.page_cache ≡ some page
    → look_up key now c ≡ some (bytes, c')
    → IsFifo c' × (c'.lru_list ≡ access key c.lru_list)
unfolding assign
look_up-IsFifo key now c c' bytes page v f hit e =
    let cached = is_cached-find key c.page_cache {page = page} hit in
    subst (λ (d : Cache). IsFifo d × (d.lru_list ≡ access key c.lru_list))
      (ap (λ (r : List ℕ × Cache). r.1) (some-inj (sym (look_up-hit key now c page hit) ∙ e)))
      (
        record {
          distinct = f.distinct;
          sized = length-erase key c.page_cache v.unique cached ∙ f.sized;
        },
        rw (v.listed key ∙ cached) refl,
      )

module _ {ℓ} {S : Type ℓ} (flush : PageId → List ℕ → S → S) where
  pub evict-cached :
      (key : ℕ) (c : Cache) (s : S)
      → is_cached key c.page_cache ≡ true
      → (evict_page_from_cache flush key c s).0
        ≡ record { page_cache = erase key c.page_cache; lru_list = remove key c.lru_list }
  unfolding evict_page_from_cache
  evict-cached key c s old = elim (Option-cases (find key c.page_cache)) [
    | inl miss ↦ cc (old, find-none key c.page_cache miss)
    | inr (page, hit) ↦ rw (hit, evict_page_from_cache) refl
  ]

  -- A page that was not there is put in front, where a full queue has lost its last key.
  pub add_page-IsFifo :
      (key : ℕ) (page : CachedPage) (c : Cache) (s : S)
      → IsCoherent c
      → IsFifo c
      → is_cached key c.page_cache ≡ false
      → (c' : Cache) × (add_page flush key page c s ≡ some (c', s))
        × IsFifo c'
        × (c'.lru_list ≡ access key c.lru_list)
  unfolding add_page assign
  add_page-IsFifo key page c s v f absent =
      let new : has key c.lru_list ≡ false = v.listed key ∙ absent in
      elim (Bool-cases (leb max_cached_pages (length c.page_cache))) [
        | inr room ↦
            let room' : leb max_cached_pages (length c.lru_list) ≡ false =
              ap (leb max_cached_pages) (sym f.sized) ∙ room in
            rw (room, ◌>>=◌)
              (
                _,
                refl,
                record {
                  distinct = (new, f.distinct);
                  sized = ap suc (length-absent_erase key c.page_cache absent ∙ f.sized);
                },
                rw (new, room') refl,
              )
        | inl full ↦
            let full' : leb max_cached_pages (length c.lru_list) ≡ true =
              ap (leb max_cached_pages) (sym f.sized) ∙ full in
            let (last, at_back, old) = oldest flush c v (ground arith) in
            let (_, same, _) = evict-IsCoherent flush last c s v old in
            let gone = evict-cached last c s old in
            let cut = remove-back c.lru_list {key = last} f.distinct at_back in
            let kept : is_cached key (erase last c.page_cache) ≡ false =
              ground (arith, is_cached-erase key last c.page_cache, absent) in
            let shorter = length-erase last c.page_cache v.unique old in
            let cut_length = without_last-length c.lru_list (ground (arith, f.sized)) in
            (
              record {
                page_cache = assign key page (erase last c.page_cache);
                lru_list = key ∷ without_last c.lru_list;
              },
              rw (full, at_back, ◌>>=◌, gone, same, cut) refl,
              record {
                distinct = (
                  has-without_last key c.lru_list new,
                  without_last-Distinct c.lru_list f.distinct,
                );
                sized = omega (
                  arith,
                  length-absent_erase key (erase last c.page_cache) kept,
                  shorter,
                  cut_length,
                  f.sized,
                );
              },
              rw (new, full') refl,
            )
      ]
