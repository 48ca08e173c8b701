-- ===== src/SafekeeperClient/Messages.antt =====
-- src/safekeeper_client.cc, `serialize_append_request`: what a message says of its record.
use mariadb_serverless_engin.Base.{
  ℕ, zero, suc, ◌^◌, ◌≤◌, ◌<◌, ◌≡◌, refl, sym, ap, ◌∙◌, inl, inr, List, [], ◌∷◌, ◌++◌, some, arith,
  length, length-append, All, Option-cases, ◌>>=◌, >>=-eq-some,
}
use mathlib.Core.List.{append_cancel_left, append_cancel_right}
use mariadb_serverless_engin.Types.{TimelineId, WalRecord}
use mariadb_serverless_engin.Text.{codes, decimal, c_string, c_string_upto, snprintf_result}
use mariadb_serverless_engin.Text.Decimal.{decimal-injective, decimal-digits, digits_split}
use mariadb_serverless_engin.SafekeeperClient.{
  Memory, record_data, append_text, message_of, serialize_append_request,
}

c_string_tail : (s u v : List ℕ) → c_string (s ++ 0 ∷ u) ≡ c_string (s ++ 0 ∷ v)
unfolding c_string
c_string_tail [] u v = refl
c_string_tail (c ∷ s) u v = rw (c_string_tail s u v)

c_string_upto_tail :
    (n : ℕ) (s u v : List ℕ) → c_string_upto n (s ++ 0 ∷ u) ≡ c_string_upto n (s ++ 0 ∷ v)
unfolding c_string_upto
c_string_upto_tail zero s u v = refl
c_string_upto_tail (suc n) [] u v = refl
c_string_upto_tail (suc n) (c ∷ s) u v = rw (c_string_upto_tail n s u v)

-- Bytes behind a zero byte never reach a message: two records whose data agree up to a zero byte
-- give one message, whatever follows it.
pub message_loses_tail :
    (t : TimelineId) (r : WalRecord) (m n : Memory) (size : ℕ) (s u v : List ℕ)
    → m r.address ≡ s ++ 0 ∷ u
    → n r.address ≡ s ++ 0 ∷ v
    → serialize_append_request t r m size ≡ serialize_append_request t r n size
unfolding serialize_append_request
message_loses_tail t r m n size s u v e f =
    rw (e, f, record_data)
      (ap (λ d. d >>= λ bytes. some (message_of size (append_text t r bytes)))
        (ground (arith, c_string_tail s u v, c_string_upto_tail r.length s u v)))

message_of-some :
    (size : ℕ) (text sent : List ℕ)
    → message_of size text ≡ some sent
    → (sent ≡ text) × (length text < size)
unfolding message_of snprintf_result
message_of-some size text sent e = ground arith

-- A message that is serialized is the whole text of its record, and is shorter than the buffer.
pub serialize-some :
    (t : TimelineId) (r : WalRecord) (m : Memory) (size : ℕ) {sent : List ℕ}
    → serialize_append_request t r m size ≡ some (some sent)
    → (bytes : List ℕ) × (record_data r m ≡ some bytes)
      × (sent ≡ append_text t r bytes)
      × (length sent < size)
unfolding serialize_append_request
serialize-some t r m size {sent} e =
    let (bytes, d, f) =
      >>=-eq-some (record_data r m) (λ bytes. some (message_of size (append_text t r bytes))) e in
    let (same, fits) = message_of-some size (append_text t r bytes) sent (ground arith) in
    (bytes, d, same, rw same fits)

abbrev pub IsNonzero : ℕ → Type 0
IsNonzero c = 0 < c

-- Reading up to `n` bytes reads a whole prefix without a zero byte.
c_string_upto_prefix :
    (n : ℕ) (s u : List ℕ) {read : List ℕ}
    → All IsNonzero s
    → length s ≤ n
    → c_string_upto n (s ++ u) ≡ some read
    → length s ≤ length read
unfolding c_string_upto
c_string_upto_prefix n [] u z h e = omega arith
c_string_upto_prefix zero (c ∷ s) u z h e = absurd (omega arith)
c_string_upto_prefix (suc n) (c ∷ s) u {read} z h e =
    elim (Option-cases (c_string_upto n (s ++ u))) [
      | inl fault ↦ absurd (ground arith)
      | inr (q, found) ↦
          let shorter : length s ≤ length q = c_string_upto_prefix n s u z.1 (omega arith) found in
          ground arith
    ]

length-append_text-ge :
    (t : TimelineId) (r : WalRecord) (bytes : List ℕ)
    → length bytes ≤ length (append_text t r bytes)
unfolding append_text
length-append_text-ge t r bytes = omega (arith, length-append {0})

record_data-upto :
    (r : WalRecord) (m : Memory)
    → r.length < 2 ^ 31
    → record_data r m ≡ c_string_upto r.length (m r.address)
unfolding record_data
record_data-upto r m h = ground arith

-- A record is not serialized if its data begin with as many nonzero bytes as the buffer holds,
-- and its length is at least that and below 2 ^ 31.
pub long_record_fails :
    (t : TimelineId) (r : WalRecord) (m : Memory) (size : ℕ) (s u : List ℕ) {sent : List ℕ}
    → m r.address ≡ s ++ u
    → All IsNonzero s
    → length s ≡ size
    → size ≤ r.length
    → r.length < 2 ^ 31
    → ¬ (serialize_append_request t r m size ≡ some (some sent))
long_record_fails t r m size s u e z l k h f =
    let (bytes, found, same, fits) = serialize-some t r m size f in
    let whole : length s ≤ length bytes =
      c_string_upto_prefix r.length s u z (omega arith)
        (ap (c_string_upto r.length) (sym e) ∙ sym (record_data-upto r m h) ∙ found) in
    absurd (omega (arith, ap length same, length-append_text-ge t r bytes))

-- The text of a message determines its timeline, its LSN and its length field, where these are
-- within 64, 64 and 32 bits, and its data bytes.
pub append_text-injective :
    (t u : TimelineId) (r q : WalRecord) (a b : List ℕ)
    → t.id < 2 ^ 64
    → u.id < 2 ^ 64
    → r.lsn < 2 ^ 64
    → q.lsn < 2 ^ 64
    → r.length < 2 ^ 32
    → q.length < 2 ^ 32
    → append_text t r a ≡ append_text u q b
    → (t.id ≡ u.id) × (r.lsn ≡ q.lsn) × (r.length ≡ q.length) × (a ≡ b)
unfolding append_text
append_text-injective t u r q a b ht hu hr hq lr lq e =
    let (same_id, e1) =
      digits_split b',' (decimal t.id) (decimal u.id) _ _ (λ d. absurd (omega arith))
        (decimal-digits t.id) (decimal-digits u.id)
        (append_cancel_left (codes "{\"type\":\"append\",\"timeline_id\":") _ _ e) in
    let (same_lsn, e2) =
      digits_split b',' (decimal r.lsn) (decimal q.lsn) _ _ (λ d. absurd (omega arith))
        (decimal-digits r.lsn) (decimal-digits q.lsn)
        (append_cancel_left (codes "\"lsn\":") _ _ e1) in
    let (same_length, e3) =
      digits_split b',' (decimal r.length) (decimal q.length) _ _ (λ d. absurd (omega arith))
        (decimal-digits r.length) (decimal-digits q.length)
        (append_cancel_left (codes "\"length\":") _ _ e2) in
    (
      decimal-injective t.id u.id ht hu same_id,
      decimal-injective r.lsn q.lsn hr hq same_lsn,
      decimal-injective r.length q.length (omega arith) (omega arith) same_length,
      append_cancel_right a b (codes "\"}") (append_cancel_left (codes "\"data\":\"") _ _ e3),
    )
