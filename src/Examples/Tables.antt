-- ===== src/Examples/Tables.antt =====
-- Tests and instances for the modules about tables and pages.
use mariadb_serverless_engin.Base.{ℕ, u64, ◌≡◌, ◌↔◌, ◌*◌, ◌^◌, ◌%◌, ◌+◌, refl, arith}
use mariadb_serverless_engin.Types.{PageId}
use mariadb_serverless_engin.Text.{codes}
use mariadb_serverless_engin.Timeline.Polynomial.{weighted, hash_string-weighted}
use mariadb_serverless_engin.Timeline.{widen, hash_string, page_key, page_key-eq_iff}

hash_b : hash_string (codes "b") ≡ 177671
unfolding hash_string
hash_b = refl

abbrev page : PageId
page = record { timeline_id = 7; page_number = 3 }

abbrev other_page : PageId
other_page = record { timeline_id = 2 ^ 32 + 7; page_number = 3 }

keys : page_key page ≡ 7 * 2 ^ 32 + 3
unfolding page_key
keys = refl

page_key-eq_iff_example :
    (page_key page ≡ page_key other_page) ↔ ((7 % 2 ^ 32 ≡ (2 ^ 32 + 7) % 2 ^ 32) × ◌≡◌ {A = ℕ} 3 3)
page_key-eq_iff_example = page_key-eq_iff page other_page (omega arith) (omega arith)

hash_string-weighted_example :
    hash_string (codes "ab") ≡ u64 (5381 * 33 ^ 2 + weighted (codes "ab"))
hash_string-weighted_example = hash_string-weighted (codes "ab")

weighted_ab : weighted (codes "ab") ≡ 97 * 33 + 98
unfolding widen
weighted_ab = refl
