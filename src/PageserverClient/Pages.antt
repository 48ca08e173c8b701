-- ===== src/PageserverClient/Pages.antt =====
-- src/pageserver_client.cc: how a response is put together, and what `read_page` makes of it.
use mathlib.Core.List.{append_assoc}
use native.Mathlib.Nat.{zero-add}
use mariadb_serverless_engin.Base.{
  ℕ, zero, suc, ◌+◌, ◌-◌, ◌*◌, ◌≤◌, ◌≡◌, refl, sym, ap, ◌∙◌, inl, inr, Bool, true, false, ◌&&◌,
  List, [], ◌∷◌, ◌++◌, append-nil, some, arith, length, length-append, take, All, ltb, leb, ◌==◌,
  if◌then◌else◌, Bool-cases, ℤ, pos, minus_one, is_nat, u64,
}
use mariadb_serverless_engin.Types.{PageId}
use mariadb_serverless_engin.PageserverClient.{
  HttpResponse, Piece, Curl, PageserverClient, no_response, resized, write_callback, write_all,
  zeros, page_buffer, store_page, make_http_request, read_page, build_page_url,
}

-- A piece whose number of bytes is what its factors say, and for which there is memory.
pub record IsWhole (p : Piece) : Type 0 where
  pub counted : length p.contents ≡ u64 (p.item_size * p.nmemb)
  pub allocated : p.allocates ≡ true

abbrev pub contents : List Piece → List ℕ
contents [] = []
contents (p ∷ pieces) = p.contents ++ contents pieces

take-length {ℓ} : {A : Type ℓ} (xs : List A) → take (length xs) xs ≡ xs
take-length [] = refl
take-length (x ∷ xs) = ap (◌∷◌ x) (take-length xs)

-- Of a block that grows, the old bytes stay.
take-resized :
    (fill : ℕ → ℕ) (bytes rest : List ℕ) (n : ℕ)
    → take (length bytes) (resized fill (length bytes + n) (bytes ++ rest)) ≡ bytes
unfolding resized
take-resized fill [] rest n = refl
take-resized fill (c ∷ bytes) rest n =
    ap (λ k. take (suc (length bytes)) (resized fill k (c ∷ (bytes ++ rest))))
      {x = suc (length bytes) + n} {y = suc (length bytes + n)} (omega arith)
    ∙ ap (◌∷◌ c) (take-resized fill bytes rest n)

-- A response that holds `bytes`, terminated.
abbrev pub holding : List ℕ → HttpResponse
holding bytes = record { body = some (bytes ++ 0 ∷ []); size = length bytes }

write_callback-holding :
    (p : Piece) (bytes : List ℕ)
    → IsWhole p
    → write_callback p (holding bytes) ≡ (length p.contents, holding (bytes ++ p.contents))
unfolding write_callback
write_callback-holding p bytes h = rw (
  h.allocated,
  ← h.counted,
  kept,
  take-length p.contents,
  append_assoc bytes p.contents (0 ∷ []),
  length-append bytes p.contents,
)
  where
    kept :
        take
          (length bytes)
          (resized p.fill (length bytes + length p.contents + 1) (bytes ++ 0 ∷ []))
        ≡ bytes
    kept =
        ap (λ k. take (length bytes) (resized p.fill k (bytes ++ 0 ∷ [])))
          {x = length bytes + length p.contents + 1} {y = length bytes + (length p.contents + 1)}
          (omega arith)
        ∙ take-resized p.fill bytes (0 ∷ []) (length p.contents + 1)

write_callback-empty :
    (p : Piece) → IsWhole p → write_callback p no_response ≡ (length p.contents, holding p.contents)
unfolding write_callback no_response
write_callback-empty p h =
    rw (h.allocated, ← h.counted, take-length p.contents, zero-add (length p.contents))

write_all-holding :
    (pieces : List Piece) (bytes : List ℕ)
    → All IsWhole pieces
    → write_all pieces (holding bytes) ≡ holding (bytes ++ contents pieces)
unfolding write_all
write_all-holding [] bytes h = ap holding (sym (append-nil bytes))
write_all-holding (p ∷ pieces) bytes h =
    ap (λ c. write_all pieces c.1) (write_callback-holding p bytes h.0)
    ∙ write_all-holding pieces (bytes ++ p.contents) h.1
    ∙ ap holding (append_assoc bytes p.contents (contents pieces))

-- Where every piece finds memory, the response holds the whole body, however it was cut, and a
-- terminator behind it.
pub write_all-contents :
    (p : Piece) (pieces : List Piece)
    → All IsWhole (p ∷ pieces)
    → write_all (p ∷ pieces) no_response ≡ holding (contents (p ∷ pieces))
unfolding write_all
write_all-contents p pieces h =
    ap (λ c. write_all pieces c.1) (write_callback-empty p h.0)
    ∙ write_all-holding pieces p.contents h.1

take-prefix : (xs ys : List ℕ) → take (length xs) (xs ++ ys) ≡ xs
take-prefix [] ys = refl
take-prefix (x ∷ xs) ys = ap (◌∷◌ x) (take-prefix xs ys)

page_buffer-padded :
    (bytes : List ℕ) (n : ℕ)
    → length bytes ≤ n
    → page_buffer (length bytes) (bytes ++ 0 ∷ []) n ≡ bytes ++ zeros (n - length bytes)
unfolding page_buffer
page_buffer-padded bytes n h = elim (Bool-cases (ltb (length bytes) n)) [
  | inl shorter ↦ rw (shorter, take-prefix bytes)
  | inr full ↦
      let exact : n - length bytes ≡ 0 = ground arith in
      rw (full, take-prefix bytes, exact, append-nil bytes)
]

store_page-holding :
    (result : ℤ) (bytes buffer : List ℕ) (n : ℕ)
    → store_page result (holding bytes) buffer n ≡ (
        if is_nat result 0 && leb (length bytes) n
        then (pos 0, bytes ++ zeros (n - length bytes))
        else (minus_one, buffer))
unfolding store_page
store_page-holding result bytes buffer n = ground (arith, page_buffer-padded bytes n)

module _ (curl : Curl) where
  request-holding :
      (url : List ℕ) (c : PageserverClient) (w w' : curl.World) (succeeds : Bool) (p : Piece)
      (pieces : List Piece) (response_code : ℕ)
      → c.has_handle ≡ true
      → curl.perform url w ≡ (succeeds, p ∷ pieces, response_code, w')
      → All IsWhole (p ∷ pieces)
      → make_http_request curl url no_response c w ≡ (
        (if succeeds && response_code == 200 then pos 0 else minus_one),
        holding (contents (p ∷ pieces)),
        w',
      )
  unfolding make_http_request
  request-holding url c w w' succeeds p pieces response_code handle e h =
      rw (handle, e, write_all-contents p pieces h) (ground arith)

  -- Where there is a handle, and memory for every piece of a body that is delivered, a page read
  -- succeeds exactly if the transfer does, the response code is 200 and the body fits: then the
  -- buffer holds the body and zeros up to its size. Otherwise the result is -1 and the buffer is
  -- as it was.
  pub read_page-contents :
      (page : PageId) (buffer : List ℕ) (buffer_size : ℕ) (c : PageserverClient) (w w' : curl.World)
      (succeeds : Bool) (p : Piece) (pieces : List Piece) (response_code : ℕ)
      → c.has_handle ≡ true
      → curl.perform (build_page_url page c) w ≡ (succeeds, p ∷ pieces, response_code, w')
      → All IsWhole (p ∷ pieces)
      → let body = contents (p ∷ pieces) in
        read_page curl page buffer buffer_size c w ≡ (
          if succeeds && (response_code == 200 && leb (length body) buffer_size)
          then (pos 0, body ++ zeros (buffer_size - length body), w')
          else (minus_one, buffer, w'))
  unfolding read_page
  read_page-contents page buffer buffer_size c w w' succeeds p pieces response_code handle e h =
      rw
        (
          request-holding (build_page_url page c) c w w' succeeds p pieces response_code handle e h,
          store_page-holding,
        )
        (ground arith)

length-take-resized : (fill : ℕ → ℕ) (k n : ℕ) → k ≤ n → length (take k (resized fill n [])) ≡ k
unfolding resized
length-take-resized fill zero n h = refl
length-take-resized fill (suc k) zero h = absurd (omega arith)
length-take-resized fill (suc k) (suc n) h = ap suc (length-take-resized fill k n (omega arith))

-- If `realloc` fails for a piece, behind some bytes, and finds memory for the next, the result is
-- a response of the size of those bytes and the next piece that begins, in place of them, with as
-- many bytes of a new block that nobody wrote; the piece itself is lost.
pub failed_piece_corrupts :
    (lost p : Piece) (bytes : List ℕ)
    → lost.allocates ≡ false
    → IsWhole p
    → (garbage : List ℕ) × (garbage
        ≡ take (length bytes) (resized p.fill (length bytes + length p.contents + 1) []))
      × (length garbage ≡ length bytes)
      × (write_all (lost ∷ p ∷ []) (holding bytes) ≡ record {
        body = some (garbage ++ (p.contents ++ 0 ∷ []));
        size = length bytes + length p.contents;
      })
unfolding write_all write_callback
failed_piece_corrupts lost p bytes fails h = (
  take (length bytes) (resized p.fill (length bytes + length p.contents + 1) []),
  refl,
  length-take-resized p.fill (length bytes) (length bytes + length p.contents + 1) (omega arith),
  rw (fails, h.allocated, ← h.counted, take-length p.contents),
)
