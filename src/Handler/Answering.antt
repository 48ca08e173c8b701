-- ===== src/Handler/Answering.antt =====
-- src/pageserver_client.cc: reads from a pageserver that always answers.
use mariadb_serverless_engin.Base.{
  ℕ, ◌≤◌, ◌≡◌, refl, sym, ap, subst, Bool, true, ◌&&◌, List, ◌∷◌, All, length, leb, ◌==◌, arith,
  is_nat,
}
use mariadb_serverless_engin.Types.{PageId}
use mariadb_serverless_engin.PageserverClient.{
  Curl, Piece, PageserverClient, read_page, build_page_url,
}
use mariadb_serverless_engin.PageserverClient.Pages.{contents, read_page-contents, IsWhole}
use mariadb_serverless_engin.PageCache.{mariadb_page_size}
use mariadb_serverless_engin.PageCache.Faithful.{IsNarrow}
use mariadb_serverless_engin.Handler.Stores.{padded, read-gives}

-- At the given base URL, each transfer for a page with 32-bit timeline and number succeeds with
-- code 200 and delivers something, namely what is stored of the page, which is a page at most and
-- for which there is memory.
pub record IsAnswering (curl : Curl) (base : List ℕ) (stored : PageId → List ℕ) : Type 0 where
  pub whole :
      (p : PageId) (c : PageserverClient) (w : curl.World)
      → IsNarrow p
      → c.base_url ≡ base
      → All IsWhole (curl.perform (build_page_url p c) w).1
  pub succeeds :
      (p : PageId) (c : PageserverClient) (w : curl.World)
      → IsNarrow p
      → c.base_url ≡ base
      → (curl.perform (build_page_url p c) w).0 ≡ true
  pub found :
      (p : PageId) (c : PageserverClient) (w : curl.World)
      → IsNarrow p
      → c.base_url ≡ base
      → (curl.perform (build_page_url p c) w).2 ≡ 200
  pub something :
      (p : PageId) (c : PageserverClient) (w : curl.World)
      → IsNarrow p
      → c.base_url ≡ base
      → (piece : Piece) × (pieces : List Piece) × ((curl.perform (build_page_url p c) w).1
          ≡ piece ∷ pieces)
  pub delivers :
      (p : PageId) (c : PageserverClient) (w : curl.World)
      → IsNarrow p
      → c.base_url ≡ base
      → contents (curl.perform (build_page_url p c) w).1 ≡ stored p
  pub sized : (p : PageId) → IsNarrow p → length (stored p) ≤ mariadb_page_size

module _ (curl : Curl) (base : List ℕ) (stored : PageId → List ℕ) where
  answered :
      (p : PageId) (buffer : List ℕ) (c : PageserverClient) (w w' : curl.World) (succeeds : Bool)
      (piece : Piece) (pieces : List Piece) (code : ℕ)
      → c.has_handle ≡ true
      → curl.perform (build_page_url p c) w ≡ (succeeds, piece ∷ pieces, code, w')
      → All IsWhole (piece ∷ pieces)
      → succeeds ≡ true
      → code ≡ 200
      → length (contents (piece ∷ pieces)) ≤ mariadb_page_size
      → is_nat (read_page curl p buffer mariadb_page_size c w).0 0 ≡ true
  answered p buffer c w w' succeeds piece pieces code handle e whole done found short =
      let body = contents (piece ∷ pieces) in
      let read =
        read_page-contents curl p buffer mariadb_page_size c w w' succeeds piece pieces code handle
          e whole in
      let fits : succeeds && (code == 200 && leb (length body) mariadb_page_size) ≡ true =
        ground arith in
      rw (read, fits) refl

  -- A read of a page succeeds, and gives the page that is stored.
  pub read-answered :
      (answering : IsAnswering curl base stored) (p : PageId) (buffer : List ℕ)
      (c : PageserverClient) (w : curl.World)
      → IsNarrow p
      → c.base_url ≡ base
      → c.has_handle ≡ true
      → let read = read_page curl p buffer mariadb_page_size c w in
        (is_nat read.0 0 ≡ true) × (read.1 ≡ padded stored p)
  read-answered answering p buffer c w narrow at_base handle =
      let answer = curl.perform (build_page_url p c) w in
      let (piece, pieces, some_piece) = answering.something p c w narrow at_base in
      let done = answering.succeeds p c w narrow at_base in
      let found = answering.found p c w narrow at_base in
      let same = answering.delivers p c w narrow at_base in
      let whole = answering.whole p c w narrow at_base in
      let success =
        answered p buffer c w answer.3 answer.0 piece pieces answer.2 handle
          (ap (λ ps. (answer.0, ps, answer.2, answer.3)) some_piece)
          (subst (All IsWhole) some_piece whole) done found
          (subst (λ ps. length (contents ps) ≤ mariadb_page_size) some_piece
            (subst (λ bytes. length bytes ≤ mariadb_page_size) (sym same)
              (answering.sized p narrow))) in
      (
        success,
        read-gives curl stored p buffer c w answer.3 answer.0 answer.1 answer.2 refl whole
            (λ _ _. same) handle success,
      )
