-- ===== src/Text.antt =====
-- What src/pageserver_client.cc and src/safekeeper_client.cc use of `snprintf`: decimal numbers,
-- strings behind a pointer, and the length that it returns. Text is a list of bytes.
pub mod Decimal
use Prim.Native.Char.{code}
use Prim.Native.String.{String}
use mariadb_serverless_engin.Base.{
  ℕ, zero, suc, ◌+◌, ◌-◌, ◌*◌, ◌/◌, ◌%◌, ◌^◌, List, [], ◌∷◌, ◌++◌, Option, none, some, length, take,
  ltb, leb, ◌==◌, if◌then◌else◌, ◌>>=◌, ℤ, pos, minus_one,
}

-- The bytes of a literal.
abbrev pub codes : String → List ℕ
codes String.[] = []
codes (String.◌∷◌ c s) = code c ∷ codes s

-- The decimal digits of a number below 10 ^ fuel.
unfoldable pub decimal_on : ℕ → ℕ → List ℕ
decimal_on zero n = []
decimal_on (suc fuel) n =
    let rest = decimal_on fuel (n / 10) in
    if ltb n 10 then (b'0' + n) ∷ [] else rest ++ (b'0' + n % 10) ∷ []

-- `%llu` and `%u`: twenty digits hold every 64-bit number.
unfoldable pub decimal : ℕ → List ℕ
unfolding decimal_on
decimal n = decimal_on 20 n

-- `%s`: the bytes from a pointer up to the zero byte; `none` where the object ends before.
unfoldable pub c_string : List ℕ → Option (List ℕ)
c_string [] = none
c_string (c ∷ bytes) =
    let rest = c_string bytes in if c == 0 then some [] else rest >>= λ s. some (c ∷ s)

-- `%.*s` with precision `n`: at most `n` bytes are read.
unfoldable pub c_string_upto : ℕ → List ℕ → Option (List ℕ)
c_string_upto zero bytes = some []
c_string_upto (suc n) [] = none
c_string_upto (suc n) (c ∷ bytes) =
    let rest = c_string_upto n bytes in if c == 0 then some [] else rest >>= λ s. some (c ∷ s)

-- The result of `snprintf` for a whole text: its length, or a negative number where no `int` holds
-- that.
unfoldable pub snprintf_result : List ℕ → ℤ
snprintf_result text = if ltb (length text) (2 ^ 31) then pos (length text) else minus_one

-- The string that `snprintf` leaves in a buffer of positive size.
unfoldable pub snprintf_stored : ℕ → List ℕ → List ℕ
snprintf_stored size text = take (size - 1) text
