-- ===== src/SafekeeperClient/Parse.antt =====
-- src/safekeeper_client.cc: the message of an append request, read by a reference parser.
use mariadb_serverless_engin.Base.{
  ℕ, ◌^◌, ◌<◌, ◌≡◌, refl, ap, true, ◌&&◌, List, [], ◌∷◌, ◌++◌, Option, none, some, arith, All,
  length, leb, ltb, ◌==◌, ==_refl, if◌then◌else◌, ◌>>=◌, pos, lt_int, to_int,
}
use mariadb_serverless_engin.Types.{TimelineId, WalRecord}
use mariadb_serverless_engin.Text.{codes, decimal, snprintf_result}
use mariadb_serverless_engin.Text.Decimal.{
  read_decimal, read_decimal-decimal, IsDigit, decimal-digits,
}
use mariadb_serverless_engin.SafekeeperClient.{
  Memory, append_text, record_data, message_of, serialize_append_request,
}

-- What stands behind a prefix.
pub strip : List ℕ → List ℕ → Option (List ℕ)
strip [] s = some s
strip (c ∷ prefix) [] = none
strip (c ∷ prefix) (d ∷ s) = if c == d then strip prefix s else none

-- The digits at the beginning, and the rest.
pub span_digits : List ℕ → List ℕ × List ℕ
span_digits [] = ([], [])
span_digits (c ∷ s) =
    let (digits, rest) = span_digits s in
    if leb b'0' c && leb c b'9' then (c ∷ digits, rest) else ([], c ∷ s)

-- What stands before the `"}` at the end.
pub chop : List ℕ → Option (List ℕ)
chop [] = none
chop (a ∷ []) = none
chop (a ∷ b ∷ []) = if a == 34 && b == b'}' then some [] else none
chop (a ∷ b ∷ c ∷ s) = chop (b ∷ c ∷ s) >>= λ rest. some (a ∷ rest)

pub record Append : Type 0 where
  pub timeline_id : ℕ
  pub lsn : ℕ
  pub length : ℕ
  pub bytes : List ℕ

pub parse_number : List ℕ → ℕ × List ℕ
parse_number s = let (digits, rest) = span_digits s in (read_decimal 0 digits, rest)

pub parse_append : List ℕ → Option Append
parse_append text = strip (codes "{\"type\":\"append\",\"timeline_id\":") text >>= λ s1.
    let (timeline_id, s2) = parse_number s1 in
    strip (codes ",\"lsn\":") s2 >>= λ s3.
    let (lsn, s4) = parse_number s3 in
    strip (codes ",\"length\":") s4 >>= λ s5.
    let (length, s6) = parse_number s5 in
    strip (codes ",\"data\":\"") s6 >>= λ s7. chop s7 >>= λ bytes.
    some (record { timeline_id = timeline_id; lsn = lsn; length = length; bytes = bytes })

strip-append : (prefix s : List ℕ) → strip prefix (prefix ++ s) ≡ some s
unfolding strip
strip-append [] s = refl
strip-append (c ∷ prefix) s = rw (==_refl c) (strip-append prefix s)

span_digits-append :
    (digits s : List ℕ) → All IsDigit digits → span_digits (digits ++ b',' ∷ s) ≡ (digits, b',' ∷ s)
unfolding span_digits
span_digits-append [] s h = refl
span_digits-append (c ∷ digits) s h = ground (arith, span_digits-append digits s)

chop-append : (bytes : List ℕ) → chop (bytes ++ codes "\"}") ≡ some bytes
unfolding chop
chop-append [] = refl
chop-append (a ∷ []) = refl
chop-append (a ∷ b ∷ []) = refl
chop-append (a ∷ b ∷ c ∷ bytes) =
    ap (λ r. r >>= λ rest. some (a ∷ rest)) (chop-append (b ∷ c ∷ bytes))

parse_number-decimal :
    (n : ℕ) → n < 2 ^ 64 → (s : List ℕ) → parse_number (decimal n ++ b',' ∷ s) ≡ (n, b',' ∷ s)
unfolding parse_number
parse_number-decimal n h s =
    rw (span_digits-append (decimal n) s (decimal-digits n), read_decimal-decimal n h)

-- The text of a message, whose numbers are within 64, 64 and 32 bits, is read back to its timeline,
-- its LSN, its length field and its data, whatever bytes these are, quotes and braces included.
pub parse_append-append_text :
    (t : TimelineId) (r : WalRecord) (bytes : List ℕ)
    → t.id < 2 ^ 64
    → r.lsn < 2 ^ 64
    → r.length < 2 ^ 32
    → parse_append (append_text t r bytes)
      ≡ some (record { timeline_id = t.id; lsn = r.lsn; length = r.length; bytes = bytes })
unfolding parse_append append_text strip
parse_append-append_text t r bytes ht hr hl = rw (
  parse_number-decimal t.id ht,
  parse_append,
  ◌>>=◌,
  parse_number-decimal r.lsn hr,
  parse_number-decimal r.length (omega arith),
  chop-append bytes,
)

fitting :
    (size : ℕ) (text : List ℕ)
    → length text < size
    → size < 2 ^ 31
    → message_of size text ≡ some text
unfolding message_of snprintf_result
fitting size text fits small =
    let held : ltb (length text) (2 ^ 31) ≡ true = ground arith in
    let short : lt_int (pos (length text)) (to_int size) ≡ true = ground arith in
    rw (held, message_of, snprintf_result, short)

-- A record whose data can be read is serialized if the text of its message is shorter than the
-- buffer, of fewer than 2 ^ 31 bytes, and the parser reads the message back to the timeline, the LSN,
-- the length field and those data (numbers within 64, 64 and 32 bits).
pub serialize-parse :
    (t : TimelineId) (r : WalRecord) (m : Memory) (size : ℕ) (bytes : List ℕ)
    → t.id < 2 ^ 64
    → r.lsn < 2 ^ 64
    → r.length < 2 ^ 32
    → record_data r m ≡ some bytes
    → length (append_text t r bytes) < size
    → size < 2 ^ 31
    → (sent : List ℕ) × (serialize_append_request t r m size ≡ some (some sent))
      × (parse_append sent
          ≡ some (record { timeline_id = t.id; lsn = r.lsn; length = r.length; bytes = bytes }))
unfolding serialize_append_request
serialize-parse t r m size bytes ht hr hl e fits small = (
  append_text t r bytes,
  rw (e, ◌>>=◌, fitting size (append_text t r bytes) fits small),
  parse_append-append_text t r bytes ht hr hl,
)
