-- ===== src/PageCache/Sections.antt =====
-- src/ha_serverless.cc: the page cache in every order of its critical sections.
use mariadb_serverless_engin.Base.{ℕ, ◌≡◌, refl, List, [], ◌∷◌, Option, some, ◌>>=◌}
use mariadb_serverless_engin.Types.{PageId}
use mariadb_serverless_engin.PageCache.{Cache, new_cached_page, add_page}
use mariadb_serverless_engin.PageCache.Invariant.{
  IsCoherent, after_look, after_look-IsCoherent, add_page-IsCoherent,
}

-- What one thread does under the mutex.
pub data Section : Type 0 where
  looks : ℕ → ℕ → Section
  adds : ℕ → PageId → List ℕ → ℕ → Section

module _ {ℓ} {S : Type ℓ} (flush : PageId → List ℕ → S → S) where
  unfoldable pub run : List Section → Cache → S → Option (Cache × S)
  run [] c s = some (c, s)
  run (looks key now ∷ sections) c s = run sections (after_look key now c) s
  run (adds key page_id bytes now ∷ sections) c s =
      add_page flush key (new_cached_page page_id bytes now) c s >>= λ (c', s'). run sections c' s'

  -- From a coherent cache, in whatever order the threads pass their critical sections, and
  -- whatever keys they use, every section has a defined result, nothing is written out, and the
  -- cache stays coherent: its list names the cached pages, and there are at most 1024.
  pub run-IsCoherent :
      (sections : List Section) (c : Cache) (s : S)
      → IsCoherent c
      → (c' : Cache) × (run sections c s ≡ some (c', s)) × IsCoherent c'
  unfolding run new_cached_page
  run-IsCoherent [] c s v = (c, refl, v)
  run-IsCoherent (looks key now ∷ sections) c s v =
      run-IsCoherent sections (after_look key now c) s (after_look-IsCoherent key now c v).0
  run-IsCoherent (adds key page_id bytes now ∷ sections) c s v =
      let page = new_cached_page page_id bytes now in
      let (c', e, v', _) = add_page-IsCoherent flush key page c s v refl in
      rw (e, ◌>>=◌) (run-IsCoherent sections c' s v')
