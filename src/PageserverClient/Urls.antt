-- ===== src/PageserverClient/Urls.antt =====
-- src/pageserver_client.cc: the URL of a page.
use mathlib.Core.List.{append_cancel_left}
use mariadb_serverless_engin.Base.{
  ℕ, zero, suc, ◌^◌, ◌≤◌, ◌<◌, ◌≡◌, refl, sym, ap, ◌∙◌, List, [], ◌∷◌, ◌++◌, arith, length,
  length-append, take,
}
use mariadb_serverless_engin.Types.{PageId}
use mariadb_serverless_engin.Text.{codes, decimal, snprintf_stored}
use mariadb_serverless_engin.Text.Decimal.{
  decimal-digits, decimal-injective, digits_split, length-decimal-le,
}
use mariadb_serverless_engin.PageserverClient.{PageserverClient, build_page_url}

-- The URL in full.
abbrev pub page_path : PageId → PageserverClient → List ℕ
page_path page c =
    c.base_url
    ++ (codes "/page/" ++ (decimal page.timeline_id ++ (codes "/" ++ decimal page.page_number)))

take_of_length-lt {ℓ} : {A : Type ℓ} (n : ℕ) (xs : List A) → length xs ≤ n → take n xs ≡ xs
take_of_length-lt zero [] h = refl
take_of_length-lt (suc n) [] h = refl
take_of_length-lt zero (x ∷ xs) h = absurd (omega arith)
take_of_length-lt (suc n) (x ∷ xs) h = ap (◌∷◌ x) (take_of_length-lt n xs (omega arith))

-- No URL of a page is cut if the base URL has at most 208 bytes.
pub build_page_url-whole :
    (page : PageId) (c : PageserverClient)
    → length c.base_url ≤ 208
    → build_page_url page c ≡ page_path page c
unfolding build_page_url snprintf_stored
build_page_url-whole page c h = take_of_length-lt 255 (page_path page c) (
    omega (
      arith,
      length-append {0},
      length-decimal-le page.timeline_id,
      length-decimal-le page.page_number,
    ))

-- If the base URL has at most 208 bytes, different pages with 64-bit timelines and 32-bit numbers
-- have different URLs.
pub build_page_url-injective :
    (p q : PageId) (c : PageserverClient)
    → length c.base_url ≤ 208
    → p.timeline_id < 2 ^ 64
    → q.timeline_id < 2 ^ 64
    → p.page_number < 2 ^ 32
    → q.page_number < 2 ^ 32
    → build_page_url p c ≡ build_page_url q c
    → p ≡ q
build_page_url-injective p q c h tp tq np nq e =
    let (same_id, rest) =
      digits_split b'/' (decimal p.timeline_id) (decimal q.timeline_id) _ _
        (λ d. absurd (omega arith)) (decimal-digits p.timeline_id) (decimal-digits q.timeline_id)
        (append_cancel_left (codes "/page/") _ _ (append_cancel_left c.base_url _ _ paths)) in
    joined (decimal-injective _ _ tp tq same_id)
      (decimal-injective p.page_number q.page_number (omega arith) (omega arith) rest)
  where
    paths : page_path p c ≡ page_path q c
    paths = sym (build_page_url-whole p c h) ∙ e ∙ build_page_url-whole q c h

    joined : p.timeline_id ≡ q.timeline_id → p.page_number ≡ q.page_number → p ≡ q
    joined a b = ground arith
