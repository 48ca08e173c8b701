-- ===== src/PageserverClient.antt =====
-- src/pageserver_client.h and src/pageserver_client.cc: the HTTP client. libcurl is the parameter
-- `curl`: a transfer, which hands the body to the callback in pieces, and the response code.
pub mod Pages
pub mod Urls
use mariadb_serverless_engin.Base.{
  ℕ, zero, suc, ◌+◌, ◌-◌, ◌*◌, ◌<◌, Bool, true, false, not, ◌&&◌, List, [], ◌∷◌, ◌++◌, Option, none,
  some, length, take, drop, ltb, leb, ◌==◌, if◌then◌else◌, ℤ, pos, minus_one, is_nat, u64,
}
use mariadb_serverless_engin.Types.{PageId, TimelineId}
use mariadb_serverless_engin.Text.{codes, decimal, snprintf_stored}

-- `data` is null or a block of bytes.
pub record HttpResponse : Type 0 where
  pub body : Option (List ℕ)
  pub size : ℕ

unfoldable pub no_response : HttpResponse
no_response = record { body = none; size = 0 }

-- A block of `n` bytes that keeps what fits of an old one; `fill` gives the bytes that are not set.
unfoldable pub resized : (ℕ → ℕ) → ℕ → List ℕ → List ℕ
resized fill zero old = []
resized fill (suc n) [] = fill n ∷ resized fill n []
resized fill (suc n) (c ∷ old) = c ∷ resized fill n old

-- One call of the callback: the bytes behind its pointer and the two factors of their number,
-- whether `realloc` gets the memory, and what a new block holds before it is written.
pub record Piece : Type 0 where
  pub contents : List ℕ
  pub item_size : ℕ
  pub nmemb : ℕ
  pub allocates : Bool
  pub fill : ℕ → ℕ

old_block : Option (List ℕ) → List ℕ
old_block none = []
old_block (some bytes) = bytes

-- `realloc`, `memcpy` behind the bytes so far, and the terminator. Where `realloc` fails the data
-- are null and the size is kept. The result is the number of bytes taken.
unfoldable pub write_callback : Piece → HttpResponse → ℕ × HttpResponse
unfolding old_block resized
write_callback p r =
    let total_size = u64 (p.item_size * p.nmemb) in
    let block = resized p.fill (r.size + total_size + 1) (old_block r.body) in
    if p.allocates
    then (
      total_size,
      record {
        body = some (take r.size block ++ (take total_size p.contents ++ 0 ∷ []));
        size = r.size + total_size;
      },
    )
    else (total_size, record r { body = none })

unfoldable pub write_all : List Piece → HttpResponse → HttpResponse
unfolding write_callback
write_all [] r = r
write_all (p ∷ pieces) r = write_all pieces (write_callback p r).1

-- `perform url w`: whether the transfer succeeds, the pieces it delivers, and the response code.
-- `cleanup` is `curl_easy_cleanup`.
pub record Curl : Type 1 where
  pub World : Type 0
  pub perform : List ℕ → World → Bool × List Piece × ℕ × World
  pub cleanup : World → World

-- `has_handle` says that `curl_easy_init` gave a handle. A null base URL is not modelled.
pub record PageserverClient : Type 0 where
  pub has_handle : Bool
  pub base_url : List ℕ
  pub timeout_seconds : ℕ

unfoldable pub set_base_url : List ℕ → PageserverClient → PageserverClient
set_base_url url c = record c { base_url = url }

unfoldable pub set_timeout : ℕ → PageserverClient → PageserverClient
set_timeout seconds c = record c { timeout_seconds = seconds }

unfoldable pub new_pageserver_client : Bool → List ℕ → ℕ → PageserverClient
unfolding set_base_url
new_pageserver_client has_handle url timeout =
    set_base_url url (record { has_handle = has_handle; base_url = []; timeout_seconds = timeout })

-- Each URL is built in 256 bytes, and cut where it is longer.
unfoldable pub build_page_url : PageId → PageserverClient → List ℕ
build_page_url page c = snprintf_stored 256 (
    c.base_url
    ++ (codes "/page/" ++ (decimal page.timeline_id ++ (codes "/" ++ decimal page.page_number))))

unfoldable pub build_timeline_url : TimelineId → PageserverClient → List ℕ
build_timeline_url t c = snprintf_stored 256 (c.base_url ++ (codes "/timeline/" ++ decimal t.id))

unfoldable pub build_health_url : PageserverClient → List ℕ
build_health_url c = snprintf_stored 256 (c.base_url ++ codes "/health")

abbrev pub zeros : ℕ → List ℕ
zeros zero = []
zeros (suc n) = 0 ∷ zeros n

-- The buffer after the `memcpy` of a response that fits and the `memset` behind it.
unfoldable pub page_buffer : ℕ → List ℕ → ℕ → List ℕ
page_buffer size bytes buffer_size =
    if ltb size buffer_size then take size bytes ++ zeros (buffer_size - size) else take size bytes

-- The rest of `read_page`, with the result of the request and the response at hand.
unfoldable pub store_page : ℤ → HttpResponse → List ℕ → ℕ → ℤ × List ℕ
unfolding page_buffer
store_page result r buffer buffer_size = elim r.body [
  | none ↦ (minus_one, buffer)
  | some bytes ↦
      if is_nat result 0 && leb r.size buffer_size
      then (pos 0, page_buffer r.size bytes buffer_size)
      else (minus_one, buffer)
]

module _ (curl : Curl) where
  open curl use {World, perform, cleanup}

  -- The destructor; the freeing of the URL is left out.
  unfoldable pub destruct : PageserverClient → World → World
  destruct c w = if c.has_handle then cleanup w else w

  unfoldable pub make_http_request :
      List ℕ → HttpResponse → PageserverClient → World → ℤ × HttpResponse × World
  make_http_request url response c w =
      let (succeeds, pieces, response_code, w') = perform url w in
      let response' = write_all pieces response in
      if not c.has_handle
      then (minus_one, response, w)
      else if not succeeds
      then (minus_one, response', w')
      else ((if response_code == 200 then pos 0 else minus_one), response', w')

  -- The result, the buffer and the world.
  unfoldable pub read_page : PageId → List ℕ → ℕ → PageserverClient → World → ℤ × List ℕ × World
  unfolding make_http_request store_page
  read_page page buffer buffer_size c w =
      let (result, r, w') = make_http_request (build_page_url page c) no_response c w in
      let (stored, buffer') = store_page result r buffer buffer_size in (stored, buffer', w')

  -- The LSN behind the pointer, a placeholder, is written only on success.
  unfoldable pub get_timeline_info : TimelineId → ℕ → PageserverClient → World → ℤ × ℕ × World
  unfolding make_http_request
  get_timeline_info t latest_lsn c w =
      let (result, r, w') = make_http_request (build_timeline_url t c) no_response c w in
      elim r.body [
        | none ↦ (minus_one, latest_lsn, w')
        | some bytes ↦ if is_nat result 0 then (result, 1, w') else (minus_one, latest_lsn, w')
      ]

  unfoldable pub create_timeline : TimelineId → PageserverClient → World → ℤ × World
  unfolding make_http_request
  create_timeline t c w =
      let (result, _, w') = make_http_request (build_timeline_url t c) no_response c w in
      ((if is_nat result 0 then pos 0 else minus_one), w')

  unfoldable pub check_availability : PageserverClient → World → ℤ × World
  unfolding make_http_request
  check_availability c w =
      let (result, _, w') = make_http_request (build_health_url c) no_response c w in (result, w')

  unfoldable pub get_server_status : PageserverClient → World → ℤ × World
  unfolding check_availability
  get_server_status c w = check_availability c w

-- The placeholder.
unfoldable pub delete_timeline : TimelineId → ℤ
delete_timeline t = pos 0
