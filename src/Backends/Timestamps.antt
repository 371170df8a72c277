-- ===== src/Backends/Timestamps.antt =====
-- src/backends/fmc/time.ts and src/backends/shared/license-time.ts, certificate-time.ts: the texts of times.
-- `new Date(text)` and the UTC fields of a date are parameters; `none` is an invalid date.
use Prim.Native.Char.{code}
use Prim.Native.String
use ftd_metrics_exporter.Prelude.{
  ℕ, ◌-◌, ◌+◌, ◌*◌, String, Bool, true, false, ◌&&◌, ◌||◌, List, [], ◌∷◌, Option, none, some, ◌==◌,
  if◌then◌else◌,
}
use ftd_metrics_exporter.Prelude.Int.{ℤ}
use ftd_metrics_exporter.Prelude.Text.{is_digit}

-- The test of a pattern in which `d` stands for a digit and any other character for itself.
unfoldable pub fits : (pattern text : String) → Bool
fits String.[] String.[] = true
fits String.[] (String.◌∷◌ c s) = false
fits (String.◌∷◌ p ps) String.[] = false
fits (String.◌∷◌ p ps) (String.◌∷◌ c s) =
    (if code p == b'd' then is_digit (code c) else code p == code c) && fits ps s

-- A text that fits FMC_TIMESTAMP_PATTERN, in ISO form: `T` for its first space, and `Z` for its second
-- space and what follows.
unfoldable pub iso_like : (after_date : Bool) → String → String
iso_like after_date String.[] = ""
iso_like true (String.◌∷◌ c s) =
    let rest = iso_like true s in if code c == b' ' then "Z" else String.◌∷◌ c rest
iso_like false (String.◌∷◌ c s) =
    let rest = iso_like false s in
    let time = iso_like true s in if code c == b' ' then String.◌++◌ "T" time else String.◌∷◌ c rest

-- A text that fits LICENSE_TIMESTAMP_PATTERN, in ISO form: `Z` for `UTC`.
unfoldable pub utc_to_z : String → String
utc_to_z String.[] = ""
utc_to_z (String.◌∷◌ c s) =
    let rest = utc_to_z s in if code c == b'U' then "Z" else String.◌∷◌ c rest

-- The numbers that the groups of digits of a text stand for; `group` is the one that is being read.
unfoldable pub digit_groups : (group : Option ℕ) → String → List ℕ
digit_groups none String.[] = []
digit_groups (some n) String.[] = n ∷ []
digit_groups none (String.◌∷◌ c s) =
    let begun = digit_groups (some (code c - b'0')) s in
    let skipped = digit_groups none s in if is_digit (code c) then begun else skipped
digit_groups (some n) (String.◌∷◌ c s) =
    let longer = digit_groups (some (n * 10 + (code c - b'0'))) s in
    let closed = digit_groups none s in if is_digit (code c) then longer else n ∷ closed

abbrev pub same_numbers : List ℕ → List ℕ → Bool
same_numbers [] [] = true
same_numbers (n ∷ ns) (m ∷ ms) = n == m && same_numbers ns ms
same_numbers _ _ = false

module _ (new_date : String → Option ℤ) where
  unfoldable pub parse_fmc_timestamp : String → Option ℤ
  parse_fmc_timestamp value =
      if fits "dddd-dd-dd dd:dd:dd.ddd UTC" value then new_date (iso_like false value) else none

  -- The date, if its year, month, day, hours, minutes and seconds are those of the text.
  abbrev pub unless_rolled : (utc_fields : ℤ → List ℕ) → List ℕ → Option ℤ → Option ℤ
  unless_rolled utc_fields written none = none
  unless_rolled utc_fields written (some date) =
      if same_numbers (utc_fields date) written then some date else none

  unfoldable pub parse_license_timestamp : (utc_fields : ℤ → List ℕ) → String → Option ℤ
  parse_license_timestamp utc_fields value =
      if fits "dddd-dd-ddTdd:dd:ddUTC" value
      then unless_rolled utc_fields (digit_groups none value) (new_date (utc_to_z value))
      else none

  -- The seconds are 0 where a text of CERT_EXPIRY_PATTERN has none.
  abbrev pub with_seconds : List ℕ → List ℕ
  with_seconds (year ∷ month ∷ day ∷ hour ∷ minute ∷ []) =
      year ∷ month ∷ day ∷ hour ∷ minute ∷ 0 ∷ []
  with_seconds groups = groups

  unfoldable pub parse_certificate_expiry : (utc_fields : ℤ → List ℕ) → String → Option ℤ
  parse_certificate_expiry utc_fields value =
      if fits "dddd-dd-ddTdd:ddZ" value || fits "dddd-dd-ddTdd:dd:ddZ" value
      then unless_rolled utc_fields (with_seconds (digit_groups none value)) (new_date value)
      else none
