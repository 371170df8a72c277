-- ===== src/Config/Values/Integers.antt =====
-- src/config/validate.ts, `parseInteger`, on the numbers that the code prints.
use Prim.Native.Char.{code}
use Prim.Native.String
use Prim.Native.String.append
use ftd_metrics_exporter.Prelude.{
  ℕ, zero, suc, ◌+◌, ◌-◌, ◌*◌, ◌/◌, ◌%◌, ◌≤◌, ◌<◌, ◌≡◌, refl, ap, ◌∙◌, String, true, false, some,
  arith,
}
use ftd_metrics_exporter.Prelude.Int.{pos}
use ftd_metrics_exporter.Prelude.Text.{
  digit, decimal, decimal_fuel, is_empty, is_space, trim, trim_start, trim_end, all_digits,
  digits_value,
}
use ftd_metrics_exporter.Config.Values.{
  non_empty, max_safe_integer, safe_magnitude, parse_trimmed_integer, parse_integer,
}

all_digits-append :
    (s t : String) → all_digits s ≡ true → all_digits t ≡ true → all_digits (String.◌++◌ s t) ≡ true
unfolding all_digits
all_digits-append String.[] t hs ht = ap all_digits (append.nil t) ∙ ht
all_digits-append (String.◌∷◌ c s) t hs ht =
    ap all_digits (append.cons c s t) ∙ ground (arith, all_digits-append s t)

digits_value-append :
    (acc : ℕ) (s t : String)
    → digits_value acc (String.◌++◌ s t) ≡ digits_value (digits_value acc s) t
unfolding digits_value
digits_value-append acc String.[] t = ap (digits_value acc) (append.nil t)
digits_value-append acc (String.◌∷◌ c s) t =
    ap (digits_value acc) (append.cons c s t) ∙ digits_value-append (acc * 10 + (code c - b'0')) s t

all_digits-digit : (d : ℕ) → all_digits (digit d) ≡ true
unfolding all_digits
all_digits-digit zero = refl
all_digits-digit (suc zero) = refl
all_digits-digit (suc (suc zero)) = refl
all_digits-digit (suc (suc (suc zero))) = refl
all_digits-digit (suc (suc (suc (suc zero)))) = refl
all_digits-digit (suc (suc (suc (suc (suc zero))))) = refl
all_digits-digit (suc (suc (suc (suc (suc (suc zero)))))) = refl
all_digits-digit (suc (suc (suc (suc (suc (suc (suc zero))))))) = refl
all_digits-digit (suc (suc (suc (suc (suc (suc (suc (suc zero)))))))) = refl
all_digits-digit (suc (suc (suc (suc (suc (suc (suc (suc (suc d))))))))) = refl

digits_value-digit : (acc d : ℕ) → d < 10 → digits_value acc (digit d) ≡ acc * 10 + d
unfolding digits_value
digits_value-digit acc zero h = refl
digits_value-digit acc (suc zero) h = refl
digits_value-digit acc (suc (suc zero)) h = refl
digits_value-digit acc (suc (suc (suc zero))) h = refl
digits_value-digit acc (suc (suc (suc (suc zero)))) h = refl
digits_value-digit acc (suc (suc (suc (suc (suc zero))))) h = refl
digits_value-digit acc (suc (suc (suc (suc (suc (suc zero)))))) h = refl
digits_value-digit acc (suc (suc (suc (suc (suc (suc (suc zero))))))) h = refl
digits_value-digit acc (suc (suc (suc (suc (suc (suc (suc (suc zero)))))))) h = refl
digits_value-digit acc (suc (suc (suc (suc (suc (suc (suc (suc (suc zero))))))))) h = refl
digits_value-digit acc (suc (suc (suc (suc (suc (suc (suc (suc (suc (suc d)))))))))) h = omega arith

all_digits-decimal_fuel : (f n : ℕ) → all_digits (decimal_fuel f n) ≡ true
unfolding decimal_fuel all_digits
all_digits-decimal_fuel zero n = refl
all_digits-decimal_fuel (suc f) n = ground (
  arith,
  all_digits-digit n,
  all_digits-append (decimal_fuel f (n / 10)) (digit (n % 10)) (all_digits-decimal_fuel f (n / 10))
      (all_digits-digit (n % 10)),
)

digits_value-decimal_fuel : (f n : ℕ) → n < f → digits_value 0 (decimal_fuel f n) ≡ n
unfolding decimal_fuel
digits_value-decimal_fuel zero n h = ground arith
digits_value-decimal_fuel (suc f) n h = ground (
  arith,
  digits_value-digit 0 n,
  digits_value-append 0 (decimal_fuel f (n / 10)) (digit (n % 10)),
  digits_value-digit (digits_value 0 (decimal_fuel f (n / 10))) (n % 10),
  digits_value-decimal_fuel f (n / 10),
)

trim_start-digits : (s : String) → all_digits s ≡ true → trim_start s ≡ s
unfolding trim_start all_digits is_space
trim_start-digits String.[] h = refl
trim_start-digits (String.◌∷◌ c s) h = ground arith

trim_end-digits : (s : String) → all_digits s ≡ true → trim_end s ≡ s
unfolding trim_end all_digits is_space
trim_end-digits String.[] h = refl
trim_end-digits (String.◌∷◌ c s) h = ground (arith, trim_end-digits s)

trim-digits : (s : String) → all_digits s ≡ true → trim s ≡ s
unfolding trim
trim-digits s h = ap trim_end (trim_start-digits s h) ∙ trim_end-digits s h

is_empty-append : (s t : String) → is_empty t ≡ false → is_empty (String.◌++◌ s t) ≡ false
is_empty-append String.[] t h = ap is_empty (append.nil t) ∙ h
is_empty-append (String.◌∷◌ c s) t h = ap is_empty (append.cons c s t)

is_empty-digit : (d : ℕ) → is_empty (digit d) ≡ false
is_empty-digit zero = refl
is_empty-digit (suc zero) = refl
is_empty-digit (suc (suc zero)) = refl
is_empty-digit (suc (suc (suc zero))) = refl
is_empty-digit (suc (suc (suc (suc zero)))) = refl
is_empty-digit (suc (suc (suc (suc (suc zero))))) = refl
is_empty-digit (suc (suc (suc (suc (suc (suc zero)))))) = refl
is_empty-digit (suc (suc (suc (suc (suc (suc (suc zero))))))) = refl
is_empty-digit (suc (suc (suc (suc (suc (suc (suc (suc zero)))))))) = refl
is_empty-digit (suc (suc (suc (suc (suc (suc (suc (suc (suc d))))))))) = refl

is_empty-decimal : (n : ℕ) → is_empty (decimal n) ≡ false
unfolding decimal decimal_fuel
is_empty-decimal n = ground (
  arith,
  is_empty-digit n,
  is_empty-append (decimal_fuel n (n / 10)) (digit (n % 10)) (is_empty-digit (n % 10)),
)

all_digits-decimal : (n : ℕ) → all_digits (decimal n) ≡ true
unfolding decimal
all_digits-decimal n = all_digits-decimal_fuel (suc n) n

safe_magnitude-decimal : (n : ℕ) → n ≤ max_safe_integer → safe_magnitude (decimal n) ≡ some n
unfolding safe_magnitude decimal
safe_magnitude-decimal n h =
    ground (arith, is_empty-decimal n, all_digits-decimal n, digits_value-decimal_fuel (suc n) n)

parse_trimmed_integer-digits :
    (s : String) (n : ℕ)
    → all_digits s ≡ true
    → safe_magnitude s ≡ some n
    → parse_trimmed_integer s ≡ some (pos n)
unfolding parse_trimmed_integer all_digits safe_magnitude
parse_trimmed_integer-digits String.[] n h e = ground arith
parse_trimmed_integer-digits (String.◌∷◌ c s) n h e = ground (arith, e)

-- The decimal digits of a safe integer are read back as that integer.
pub parse_integer-decimal :
    (n : ℕ) → n ≤ max_safe_integer → parse_integer (decimal n) ≡ some (pos n)
unfolding parse_integer
parse_integer-decimal n h =
    ap parse_trimmed_integer (trim-digits (decimal n) (all_digits-decimal n))
    ∙ parse_trimmed_integer-digits (decimal n) n (all_digits-decimal n) (safe_magnitude-decimal n h)

pub non_empty-decimal : (n : ℕ) → non_empty (some (decimal n)) ≡ some (decimal n)
unfolding non_empty
non_empty-decimal n =
    ground (arith, trim-digits (decimal n) (all_digits-decimal n), is_empty-decimal n)
