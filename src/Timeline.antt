-- ===== src/Timeline.antt =====
-- src/ha_serverless.cc, `hash_string` and `page_key`: how a table gets its timeline, and a page its
-- key in the cache.
pub mod Polynomial
use Prim.Native.Nat.{bit_or}
use mariadb_serverless_engin.Base.{
  ℕ, ◌+◌, ◌-◌, ◌*◌, ◌%◌, ◌^◌, ◌<◌, ◌≡◌, refl, sym, ◌∙◌, ◌↔◌, List, [], ◌∷◌, ◌++◌, arith, All, u64,
  ltb, ◌==◌, if◌then◌else◌, bit_or-shifted,
}
use mariadb_serverless_engin.Types.{PageId}

-- A `char`, signed as on x86-64, taken to `int` and then to `uint64_t`.
unfoldable pub widen : ℕ → ℕ
widen c = if ltb c 128 then c else c + (2 ^ 64 - 256)

unfoldable pub hash_step : ℕ → ℕ → ℕ
unfolding widen
hash_step hash c = u64 (u64 (u64 (hash * 2 ^ 5) + hash) + widen c)

-- The loop ends at the zero byte, or at the end of the list, which stands for it.
unfoldable pub hash_from : ℕ → List ℕ → ℕ
unfolding hash_step
hash_from hash [] = hash
hash_from hash (c ∷ str) =
    let rest = hash_from (hash_step hash c) str in if c == 0 then hash else rest

unfoldable pub hash_string : List ℕ → ℕ
unfolding hash_from
hash_string str = hash_from 5381 str

-- `(timeline_id << 32) | page_number`, in 64 bits.
unfoldable pub page_key : PageId → ℕ
page_key p = bit_or (u64 (p.timeline_id * 2 ^ 32)) p.page_number

hash_from-lt : (hash : ℕ) (str : List ℕ) → hash < 2 ^ 64 → hash_from hash str < 2 ^ 64
unfolding hash_from
hash_from-lt hash [] h = h
hash_from-lt hash (c ∷ str) h = ground (arith, hash_from-lt (hash_step hash c) str)

-- A timeline identifier fits 64 bits.
pub hash_string-lt : (str : List ℕ) → hash_string str < 2 ^ 64
unfolding hash_string
hash_string-lt str = hash_from-lt 5381 str (omega arith)

-- A character of a name: not the terminator, and ASCII.
abbrev pub IsAscii : ℕ → Type 0
IsAscii c = (0 < c) × (c < 128)

hash_from-append :
    (hash : ℕ) (p s : List ℕ)
    → All IsAscii p
    → hash_from hash (p ++ s) ≡ hash_from (hash_from hash p) s
unfolding hash_from
hash_from-append hash [] s h = refl
hash_from-append hash (c ∷ p) s h = ground (arith, hash_from-append (hash_step hash c) p s h.1)

two_steps :
    (hash a b : ℕ)
    → a < 127
    → 33 < b
    → b < 128
    → hash_step (hash_step hash a) b ≡ hash_step (hash_step hash (a + 1)) (b - 33)
unfolding hash_step
two_steps hash a b h k l = ground arith

-- Behind an ASCII prefix, names that differ in two adjacent ASCII characters only, `a`, `b` in
-- one and `a + 1`, `b - 33` in the other, have one hash, as with "ab" and "bA": their tables
-- share a timeline.
pub hash_string_collides :
    (p s : List ℕ) (a b : ℕ)
    → All IsAscii p
    → 0 < a
    → a < 127
    → 33 < b
    → b < 128
    → hash_string (p ++ a ∷ b ∷ s) ≡ hash_string (p ++ (a + 1) ∷ (b - 33) ∷ s)
unfolding hash_string hash_from
hash_string_collides p s a b h k l m n =
    hash_from-append 5381 p (a ∷ b ∷ s) h
    ∙ swapped (hash_from 5381 p)
    ∙ sym (hash_from-append 5381 p ((a + 1) ∷ (b - 33) ∷ s) h)
  where
    swapped : (hash : ℕ) → hash_from hash (a ∷ b ∷ s) ≡ hash_from hash ((a + 1) ∷ (b - 33) ∷ s)
    swapped hash = ground (arith, two_steps hash a b)

page_key_lem :
    (p : PageId)
    → p.page_number < 2 ^ 32
    → page_key p ≡ p.timeline_id % 2 ^ 32 * 2 ^ 32 + p.page_number
unfolding page_key
page_key_lem p h =
    let kept : u64 (p.timeline_id * 2 ^ 32) ≡ p.timeline_id % 2 ^ 32 * 2 ^ 32 = omega arith in
    rw kept (bit_or-shifted 32 (p.timeline_id % 2 ^ 32) p.page_number h)

-- Two pages with 32-bit page numbers have one key exactly if they have the same number and their
-- timelines agree in the low 32 bits.
pub page_key-eq_iff :
    (p q : PageId)
    → p.page_number < 2 ^ 32
    → q.page_number < 2 ^ 32
    → (page_key p ≡ page_key q)
      ↔ ((p.timeline_id % 2 ^ 32 ≡ q.timeline_id % 2 ^ 32) × (p.page_number ≡ q.page_number))
page_key-eq_iff p q h k = (
  λ e. ground (arith, page_key_lem p, page_key_lem q, e),
  λ e. ground (arith, page_key_lem p, page_key_lem q, e),
)
