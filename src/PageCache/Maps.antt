-- ===== src/PageCache/Maps.antt =====
-- The laws of the map and the list that src/ha_serverless.cc keeps its pages in.
use mariadb_serverless_engin.Base.{
  ℕ, suc, ◌≤◌, ◌<◌, ◌≡◌, refl, Bool, true, false, ◌||◌, List, [], ◌∷◌, none, some, arith, length,
  has, ◌==◌, ==_iff, ==_refl, if◌then◌else◌,
}
use mariadb_serverless_engin.PageCache.{CachedPage, Pages, find, erase, assign, remove, back}

abbrev pub is_cached : ℕ → Pages → Bool
is_cached key [] = false
is_cached key ((k, page) ∷ pages) = (k == key) || is_cached key pages

pub is_cached-find :
    (key : ℕ) (pages : Pages) {page : CachedPage}
    → find key pages ≡ some page
    → is_cached key pages ≡ true
unfolding find
is_cached-find key [] e = cc
is_cached-find key ((k, p) ∷ pages) {page} e =
    ground (arith, is_cached-find key pages {page = page})

pub find-none : (key : ℕ) (pages : Pages) → find key pages ≡ none → is_cached key pages ≡ false
unfolding find
find-none key [] e = refl
find-none key ((k, p) ∷ pages) e = ground (arith, find-none key pages)

pub is_cached-erase :
    (j key : ℕ) (pages : Pages)
    → is_cached j (erase key pages) ≡ (if key == j then false else is_cached j pages)
unfolding erase
is_cached-erase j key [] = ground arith
is_cached-erase j key ((k, p) ∷ pages) = ground (arith, is_cached-erase j key pages)

pub has-remove :
    (j key : ℕ) (keys : List ℕ) → has j (remove key keys) ≡ (if key == j then false else has j keys)
unfolding remove
has-remove j key [] = ground arith
has-remove j key (k ∷ keys) = ground (arith, has-remove j key keys)

-- No key twice.
abbrev pub Unique : Pages → Type 0
Unique [] = Unit
Unique ((k, page) ∷ pages) = (is_cached k pages ≡ false) × Unique pages

pub Unique-erase : (key : ℕ) (pages : Pages) → Unique pages → Unique (erase key pages)
unfolding erase
Unique-erase key [] u = tt
Unique-erase key ((k, p) ∷ pages) u =
    ground (arith, Unique-erase key pages u.1, is_cached-erase k key pages)

pub length-erase-le : (key : ℕ) (pages : Pages) → length (erase key pages) ≤ length pages
unfolding erase
length-erase-le key [] = omega arith
length-erase-le key ((k, p) ∷ pages) = ground (arith, length-erase-le key pages)

pub length-erase-lt :
    (key : ℕ) (pages : Pages) → is_cached key pages ≡ true → length (erase key pages) < length pages
unfolding erase
length-erase-lt key [] e = cc
length-erase-lt key ((k, p) ∷ pages) e =
    ground (arith, length-erase-lt key pages, length-erase-le key pages)

pub back-has : (keys : List ℕ) {key : ℕ} → back keys ≡ some key → has key keys ≡ true
unfolding back
back-has [] e = cc
back-has (k ∷ []) e = ground (arith, ==_refl k)
back-has (k ∷ k' ∷ keys) {key} e = ground (arith, back-has (k' ∷ keys) {key = key} e)

pub back-some : (keys : List ℕ) (key : ℕ) → has key keys ≡ true → (k : ℕ) × (back keys ≡ some k)
unfolding back
back-some [] key e = cc
back-some (k ∷ []) key e = (k, refl)
back-some (k ∷ k' ∷ keys) key e =
    let here : has k' (k' ∷ keys) ≡ true = ground (arith, ==_refl k') in
    back-some (k' ∷ keys) k' here

pub length-absent_erase :
    (key : ℕ) (pages : Pages)
    → is_cached key pages ≡ false
    → length (erase key pages) ≡ length pages
unfolding erase
length-absent_erase key [] e = refl
length-absent_erase key ((k, p) ∷ pages) e = ground (arith, length-absent_erase key pages)

pub length-erase :
    (key : ℕ) (pages : Pages)
    → Unique pages
    → is_cached key pages ≡ true
    → suc (length (erase key pages)) ≡ length pages
unfolding erase
length-erase key [] u e = cc
length-erase key ((k, p) ∷ pages) u e =
    ground (arith, length-absent_erase k pages u.0, length-erase key pages u.1, ==_iff k key)

pub find-assign_self :
    (key : ℕ) (page : CachedPage) (pages : Pages) → find key (assign key page pages) ≡ some page
unfolding find assign
find-assign_self key page pages = ground (arith, ==_refl key)

pub nonempty_key : (pages : Pages) → 0 < length pages → (key : ℕ) × (is_cached key pages ≡ true)
nonempty_key [] h = absurd (omega arith)
nonempty_key ((k, p) ∷ pages) h = (k, ground (arith, ==_refl k))
