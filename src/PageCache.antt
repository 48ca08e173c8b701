-- ===== src/PageCache.antt =====
-- src/ha_serverless.h and src/ha_serverless.cc: the page cache of a handler, `page_cache` with
-- `lru_list`. Each function is what happens under one hold of `cache_mutex`.
pub mod Maps
pub mod Invariant
pub mod Sections
pub mod Eviction
pub mod Faithful
pub mod Readers
pub mod Objects
pub mod Fifo
use mariadb_serverless_engin.Base.{
  ℕ, zero, suc, ◌+◌, ◌≤◌, Bool, true, false, List, [], ◌∷◌, Option, none, some, length, leb, ◌==◌,
  if◌then◌else◌, ◌>>=◌,
}
use mariadb_serverless_engin.Types.{PageId}

pub record CachedPage : Type 0 where
  pub page_id : PageId
  pub bytes : List ℕ
  pub lsn : ℕ
  pub dirty : Bool
  pub last_access : ℕ

abbrev pub Pages : Type 0
Pages = List (ℕ × CachedPage)

pub record Cache : Type 0 where
  pub page_cache : Pages
  pub lru_list : List ℕ

abbrev pub max_cached_pages : ℕ
max_cached_pages = 1024

abbrev pub mariadb_page_size : ℕ
mariadb_page_size = 16384

-- The constructor of `CachedPage`, with the fields that the caller sets at once.
unfoldable pub new_cached_page : PageId → List ℕ → ℕ → CachedPage
new_cached_page page_id bytes now = record {
  page_id = page_id;
  bytes = bytes;
  lsn = 0;
  dirty = false;
  last_access = now;
}

-- The map, its order left open: `find`, `erase` and the assignment `map[key] = page`.
unfoldable pub find : ℕ → Pages → Option CachedPage
find key [] = none
find key ((k, page) ∷ pages) = if k == key then some page else find key pages

unfoldable pub erase : ℕ → Pages → Pages
erase key [] = []
erase key ((k, page) ∷ pages) =
    let rest = erase key pages in if k == key then rest else (k, page) ∷ rest

unfoldable pub assign : ℕ → CachedPage → Pages → Pages
assign key page pages = (key, page) ∷ erase key pages

-- `list::remove`: every occurrence goes.
unfoldable pub remove : ℕ → List ℕ → List ℕ
remove key [] = []
remove key (k ∷ keys) = let rest = remove key keys in if k == key then rest else k ∷ rest

-- `list::back`, which has no defined result on an empty list.
unfoldable pub back : List ℕ → Option ℕ
back [] = none
back (k ∷ []) = some k
back (k ∷ k' ∷ keys) = back (k' ∷ keys)

-- The first critical section of a read: on a hit the bytes are copied out and the time is noted.
unfoldable pub look_up : ℕ → ℕ → Cache → Option (List ℕ × Cache)
look_up key now c = find key c.page_cache >>= λ page. some (
  page.bytes,
  record c { page_cache = assign key (record page { last_access = now }) c.page_cache },
)

-- The writing of a dirty page is a parameter, `flush`, on the state of the rest of the program.
module _ {ℓ} {S : Type ℓ} (flush : PageId → List ℕ → S → S) where
  unfoldable pub evict_page_from_cache : ℕ → Cache → S → Cache × S
  evict_page_from_cache key c s = elim (find key c.page_cache) [
    | none ↦ (record c { lru_list = remove key c.lru_list }, s)
    | some page ↦ (
      record { page_cache = erase key c.page_cache; lru_list = remove key c.lru_list },
      (if page.dirty then flush page.page_id page.bytes s else s),
    )
  ]

  -- The second critical section, after a page was fetched.
  unfoldable pub add_page : ℕ → CachedPage → Cache → S → Option (Cache × S)
  unfolding evict_page_from_cache
  add_page key page c s =
      (if leb max_cached_pages (length c.page_cache)
        then (back c.lru_list >>= λ oldest. some (evict_page_from_cache oldest c s))
        else some (c, s))
      >>= λ (c', s').
          some (
            record { page_cache = assign key page c'.page_cache; lru_list = key ∷ c'.lru_list },
            s',
          )

  -- The loop of `close`, over the map's entries: dirty pages are written, and stay dirty.
  unfoldable pub flush_all : Pages → S → S
  flush_all [] s = s
  flush_all ((k, page) ∷ pages) s =
      let s' = (if page.dirty then flush page.page_id page.bytes s else s) in flush_all pages s'
