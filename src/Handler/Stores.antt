-- ===== src/Handler/Stores.antt =====
-- src/pageserver_client.cc with src/ha_serverless.cc: a pageserver that keeps pages, seen through
-- `read_page` with a buffer of one page.
use mariadb_serverless_engin.Base.{
  ℕ, zero, suc, ◌-◌, ◌≤◌, ◌≡◌, refl, ap, Bool, true, false, ◌&&◌, List, [], ◌∷◌, ◌++◌, All, length,
  length-append, leb, ◌==◌, ==_iff, Bool-cases, inl, inr, arith, is_nat,
}
use mariadb_serverless_engin.Types.{PageId}
use mariadb_serverless_engin.PageserverClient.{
  Curl, Piece, PageserverClient, read_page, build_page_url, zeros, make_http_request, store_page,
  no_response, write_all,
}
use mariadb_serverless_engin.PageserverClient.Pages.{IsWhole, contents, read_page-contents}
use mariadb_serverless_engin.PageCache.{mariadb_page_size}
use mariadb_serverless_engin.Handler.Served.{IsServing}

-- There is memory for what is delivered; and whenever a transfer for a page succeeds with code 200,
-- what it delivers is what is stored of the page, which is a page at most.
pub record IsStore (curl : Curl) (stored : PageId → List ℕ) : Type 0 where
  pub whole : (url : List ℕ) (w : curl.World) → All IsWhole (curl.perform url w).1
  pub delivers :
      (p : PageId) (c : PageserverClient) (w : curl.World)
      → (curl.perform (build_page_url p c) w).0 ≡ true
      → (curl.perform (build_page_url p c) w).2 ≡ 200
      → contents (curl.perform (build_page_url p c) w).1 ≡ stored p
  pub sized : (p : PageId) → length (stored p) ≤ mariadb_page_size

-- A stored page with zeros up to the size of a page.
abbrev pub padded : (PageId → List ℕ) → PageId → List ℕ
padded stored p = stored p ++ zeros (mariadb_page_size - length (stored p))

length-zeros : (n : ℕ) → length (zeros n) ≡ n
length-zeros zero = refl
length-zeros (suc n) = omega (arith, length-zeros n)

pub length-padded :
    (stored : PageId → List ℕ) (p : PageId)
    → length (stored p) ≤ mariadb_page_size
    → length (padded stored p) ≤ mariadb_page_size
length-padded stored p h = omega (
  arith,
  length-append (stored p) (zeros (mariadb_page_size - length (stored p))),
  length-zeros (mariadb_page_size - length (stored p)),
)

module _ (curl : Curl) (stored : PageId → List ℕ) where
  -- A response without a body is no success.
  read-nothing :
      (p : PageId) (buffer : List ℕ) (c : PageserverClient) (w w' : curl.World) (succeeds : Bool)
      (response_code : ℕ)
      → curl.perform (build_page_url p c) w ≡ (succeeds, [], response_code, w')
      → is_nat (read_page curl p buffer mariadb_page_size c w).0 0 ≡ false
  unfolding read_page make_http_request store_page no_response write_all
  read-nothing p buffer c w w' succeeds response_code e = ground (arith, e)

  -- A read that succeeds gives the stored page.
  pub read-gives :
      (p : PageId) (buffer : List ℕ) (c : PageserverClient) (w w' : curl.World) (succeeds : Bool)
      (pieces : List Piece) (response_code : ℕ)
      → curl.perform (build_page_url p c) w ≡ (succeeds, pieces, response_code, w')
      → All IsWhole pieces
      → (succeeds ≡ true → response_code ≡ 200 → contents pieces ≡ stored p)
      → c.has_handle ≡ true
      → is_nat (read_page curl p buffer mariadb_page_size c w).0 0 ≡ true
      → (read_page curl p buffer mariadb_page_size c w).1 ≡ padded stored p
  read-gives p buffer c w w' succeeds [] response_code e whole delivers handle got =
      cc (got, read-nothing p buffer c w w' succeeds response_code e)
  read-gives p buffer c w w' succeeds (piece ∷ pieces) response_code e whole delivers handle got =
      let body = contents (piece ∷ pieces) in
      let fits = succeeds && (response_code == 200 && leb (length body) mariadb_page_size) in
      let read =
        read_page-contents curl p buffer mariadb_page_size c w w' succeeds piece pieces
          response_code handle e whole in
      elim (Bool-cases fits) [
        | inl fitting ↦
            let done : succeeds ≡ true = ground arith in
            let found : response_code ≡ 200 = ground (arith, ==_iff response_code 200) in
            rw (read, fitting)
              (ap (λ bytes. bytes ++ zeros (mariadb_page_size - length bytes))
                (delivers done found))
        | inr failed ↦ cc (rw (read, failed) at got)
      ]

  read-handle :
      (p : PageId) (buffer : List ℕ) (c : PageserverClient) (w : curl.World)
      → c.has_handle ≡ false
      → is_nat (read_page curl p buffer mariadb_page_size c w).0 0 ≡ false
  unfolding read_page make_http_request store_page no_response
  read-handle p buffer c w lacks = rw lacks refl

  pub store-IsServing : IsStore curl stored → IsServing curl (padded stored)
  store-IsServing s = record {
    stable = λ p buffer c w got. elim (Bool-cases c.has_handle) [
      | inl handle ↦
          let answer = curl.perform (build_page_url p c) w in
          read-gives p buffer c w answer.3 answer.0 answer.1 answer.2 refl
            (s.whole (build_page_url p c) w) (s.delivers p c w) handle got
      | inr lacks ↦ cc (got, read-handle p buffer c w lacks)
    ];
    sized = λ p. length-padded stored p (s.sized p);
  }
