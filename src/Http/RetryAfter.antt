-- ===== src/Http/RetryAfter.antt =====
-- src/http/retry.ts, `parseRetryAfterMs`: the `Retry-After` header.
-- `Date.parse` is the engine's: it is the parameter `date_parse`, in milliseconds, `none` for NaN.
use Prim.Native.Char.{code}
use Prim.Native.String.{String}
use ftd_metrics_exporter.Prelude.{
  ℕ, ◌-◌, ◌*◌, ◌^◌, ◌≤◌, ◌≡◌, Bool, false, not, ◌&&◌, ◌||◌, Option, none, some, min, ltb, ◌==◌,
  if◌then◌else◌, arith,
}
use ftd_metrics_exporter.Prelude.Int.{ℤ, sub_or_zero}
use ftd_metrics_exporter.Prelude.Text.{is_empty, trim, is_digit, all_digits, digits_value}

abbrev pub cap_delay_ms : ℕ
cap_delay_ms = 8_000

abbrev pub max_retry_after_ms : ℕ
max_retry_after_ms = cap_delay_ms

-- The test of /^\d+$/.
unfoldable pub is_digits : String → Bool
is_digits s = not (is_empty s) && all_digits s

-- The test of /^\d*\.?\d+$/.
unfoldable pub is_unsigned_decimal : String → Bool
is_unsigned_decimal String.[] = false
is_unsigned_decimal (String.◌∷◌ c s) =
    if is_digit (code c) then is_empty s || is_unsigned_decimal s else code c == b'.' && is_digits s

-- MALFORMED_NUMERIC_PATTERN, the test of /^[+-]?\d*\.?\d+$/.
unfoldable pub is_malformed_numeric : String → Bool
is_malformed_numeric String.[] = false
is_malformed_numeric (String.◌∷◌ c s) =
    if code c == b'+' || code c == b'-'
    then is_unsigned_decimal s
    else is_unsigned_decimal (String.◌∷◌ c s)

-- Number.isFinite(Number(text)) of a string of digits: it rounds to Infinity from here on.
abbrev pub number_overflow : ℕ
number_overflow = 2 ^ 1024 - 2 ^ 970

unfoldable pub seconds_to_ms : ℕ → Option ℕ
seconds_to_ms seconds =
    if ltb seconds number_overflow then some (min (seconds * 1000) max_retry_after_ms) else none

module _ (date_parse : String → Option ℤ) where
  unfoldable pub date_to_ms : String → ℕ → Option ℕ
  date_to_ms trimmed wall_now_ms = elim (date_parse trimmed) [
    | none ↦ none
    | some date_ms ↦ some (min (sub_or_zero date_ms wall_now_ms) max_retry_after_ms)
  ]

  unfoldable pub parse_trimmed : String → ℕ → Option ℕ
  parse_trimmed trimmed wall_now_ms =
      if is_digits trimmed
      then seconds_to_ms (digits_value 0 trimmed)
      else if is_malformed_numeric trimmed
      then none
      else date_to_ms trimmed wall_now_ms

  unfoldable pub parse_retry_after_ms : Option String → ℕ → Option ℕ
  parse_retry_after_ms none wall_now_ms = none
  parse_retry_after_ms (some value) wall_now_ms = parse_trimmed (trim value) wall_now_ms

  seconds_to_ms-le : (n ms : ℕ) → seconds_to_ms n ≡ some ms → ms ≤ max_retry_after_ms
  unfolding seconds_to_ms
  seconds_to_ms-le n ms h = ground arith

  date_to_ms-le : (s : String) (now ms : ℕ) → date_to_ms s now ≡ some ms → ms ≤ max_retry_after_ms
  unfolding date_to_ms
  date_to_ms-le s now ms h = ground arith

  parse_trimmed-le :
      (s : String) (now ms : ℕ) → parse_trimmed s now ≡ some ms → ms ≤ max_retry_after_ms
  unfolding parse_trimmed
  parse_trimmed-le s now ms h =
      ground (arith, seconds_to_ms-le (digits_value 0 s) ms, date_to_ms-le s now ms)

  -- Whatever the header holds, a delay that is read from it is at most the cap of eight seconds.
  pub parse_retry_after_ms-le :
      (value : Option String) (now ms : ℕ)
      → parse_retry_after_ms value now ≡ some ms
      → ms ≤ max_retry_after_ms
  unfolding parse_retry_after_ms
  parse_retry_after_ms-le none now ms h = ground arith
  parse_retry_after_ms-le (some value) now ms h = parse_trimmed-le (trim value) now ms h
