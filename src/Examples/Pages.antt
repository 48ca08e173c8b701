-- ===== src/Examples/Pages.antt =====
-- Tests and instances for the page cache and for `PageserverClient`.
use mariadb_serverless_engin.Base.{
  ℕ, zero, suc, ◌≤◌, ◌≡◌, refl, Bool, true, false, List, [], ◌∷◌, ◌++◌, some, arith, length, take,
  has, pos,
}
use mariadb_serverless_engin.Types.{PageId}
use mariadb_serverless_engin.Text.{codes, decimal, snprintf_stored}
use mariadb_serverless_engin.PageserverClient.{
  Piece, Curl, PageserverClient, build_page_url, read_page, write_all, resized,
}
use mariadb_serverless_engin.PageserverClient.Pages.{
  holding, read_page-contents, failed_piece_corrupts,
}
use mariadb_serverless_engin.PageserverClient.Urls.{build_page_url-injective}
use mariadb_serverless_engin.PageCache.{Pages, Cache, new_cached_page, back, max_cached_pages}
use mariadb_serverless_engin.PageCache.Maps.{is_cached, Unique}
use mariadb_serverless_engin.PageCache.Invariant.{IsClean, IsCoherent}
use mariadb_serverless_engin.PageCache.Sections.{looks, adds, run, run-IsCoherent}

abbrev pub page : PageId
page = record { timeline_id = 7; page_number = 3 }

abbrev pub client : PageserverClient
client = record {
  has_handle = true;
  base_url = codes "http://localhost:9997";
  timeout_seconds = 10;
}

abbrev pub piece : List ℕ → Bool → Piece
piece bytes allocates = record {
  contents = bytes;
  item_size = 1;
  nmemb = length bytes;
  allocates = allocates;
  fill = λ n. 205;
}

-- A server that answers every request with two pieces.
abbrev pub answering : Curl
answering = record {
  World = Unit {0};
  perform = λ url w. (true, piece (codes "ab") true ∷ piece (codes "c") true ∷ [], 200, w);
  cleanup = λ w. w;
}

url : build_page_url page client ≡ codes "http://localhost:9997/page/7/3"
unfolding build_page_url snprintf_stored decimal
url = refl

read_page-contents_example :
    read_page answering page (1 ∷ 1 ∷ 1 ∷ 1 ∷ 1 ∷ []) 5 client tt
    ≡ (pos 0, codes "abc" ++ (0 ∷ 0 ∷ []), tt)
read_page-contents_example =
    read_page-contents answering page (1 ∷ 1 ∷ 1 ∷ 1 ∷ 1 ∷ []) 5 client tt tt true
      (piece (codes "ab") true) (piece (codes "c") true ∷ []) 200 refl refl
      (
        record { counted = refl; allocated = refl },
        (record { counted = refl; allocated = refl }, tt),
      )

failed_piece_corrupts_example :
    (garbage : List ℕ) × (garbage ≡ take 2 (resized (λ n. 205) 4 []))
    × (length garbage ≡ 2)
    × (write_all (piece (codes "x") false ∷ piece (codes "c") true ∷ []) (holding (codes "ab"))
        ≡ record { body = some (garbage ++ (codes "c" ++ 0 ∷ [])); size = 3 })
failed_piece_corrupts_example =
    failed_piece_corrupts (piece (codes "x") false) (piece (codes "c") true) (codes "ab") refl
      (record { counted = refl; allocated = refl })

build_page_url-injective_example : page ≡ page
build_page_url-injective_example =
    build_page_url-injective page page client (omega arith) (omega arith) (omega arith)
      (omega arith) (omega arith) refl

-- The pages 0 to n - 1, added in this order.
abbrev filled_pages : ℕ → Pages
filled_pages zero = []
filled_pages (suc n) = (n, new_cached_page page [] 0) ∷ filled_pages n

abbrev filled_list : ℕ → List ℕ
filled_list zero = []
filled_list (suc n) = n ∷ filled_list n

abbrev pub filled : ℕ → Cache
filled n = record { page_cache = filled_pages n; lru_list = filled_list n }

filled-listed : (n k : ℕ) → has k (filled_list n) ≡ is_cached k (filled_pages n)
filled-listed zero k = refl
filled-listed (suc n) k = ground (arith, filled-listed n k)

filled-absent : (n k : ℕ) → n ≤ k → is_cached k (filled_pages n) ≡ false
filled-absent zero k h = refl
filled-absent (suc n) k h = ground (arith, filled-absent n k)

filled-Unique : (n : ℕ) → Unique (filled_pages n)
filled-Unique zero = tt
filled-Unique (suc n) = (filled-absent n n (omega arith), filled-Unique n)

filled-IsClean : (n : ℕ) → IsClean (filled_pages n)
unfolding new_cached_page
filled-IsClean zero = tt
filled-IsClean (suc n) = (refl, filled-IsClean n)

length-filled : (n : ℕ) → length (filled_pages n) ≡ n
length-filled zero = refl
length-filled (suc n) = omega (arith, length-filled n)

pub filled-IsCoherent : (n : ℕ) → n ≤ max_cached_pages → IsCoherent (filled n)
filled-IsCoherent n h = record {
  listed = filled-listed n;
  unique = filled-Unique n;
  clean = filled-IsClean n;
  bounded = omega (arith, length-filled n);
}

back-filled : (n : ℕ) → back (filled_list (suc n)) ≡ some 0
unfolding back
back-filled zero = refl
back-filled (suc n) = back-filled n

-- Nothing is written.
abbrev pub no_flush : PageId → List ℕ → ℕ → ℕ
no_flush id bytes s = suc s

run-IsCoherent_example :
    (c' : Cache) × (run no_flush (adds 9 page [] 1 ∷ looks 9 2 ∷ adds 9 page [] 3 ∷ []) (filled 2) 0
      ≡ some (c', 0))
    × IsCoherent c'
run-IsCoherent_example =
    run-IsCoherent no_flush (adds 9 page [] 1 ∷ looks 9 2 ∷ adds 9 page [] 3 ∷ []) (filled 2) 0
      (filled-IsCoherent 2 (omega arith))
