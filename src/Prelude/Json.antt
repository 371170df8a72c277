-- ===== src/Prelude/Json.antt =====
-- A parsed JSON value, and what the source asks of it. `undefined` is `none`.
-- A number is a double: ± numerator / 2 ^ denominator_log2, an infinity (which `JSON.parse` gives for
-- a literal that is too large), or NaN.
use Prim.Native.Nat.{ℕ, ◌*◌, ◌^◌}
use Prim.Native.String.{String}
use mathlib.Core.Bool.{Bool, true, false, not}
use mathlib.Core.List.{List, [], ◌∷◌}
use mathlib.Core.Option.{Option, none, some}
use ftd_metrics_exporter.Prelude.Tests.{ltb, str_eq, if◌then◌else◌}

pub data Number : Type 0 where
  finite : (negative : Bool) → (numerator denominator_log2 : ℕ) → Number
  infinite : (negative : Bool) → Number
  nan : Number

mutual
  pub data Json : Type 0 where
    null : Json
    bool : Bool → Json
    num : Number → Json
    str : String → Json
    arr : Items → Json
    obj : Fields → Json

  pub data Items : Type 0 where
    nil : Items
    cons : Json → Items → Items

  pub data Fields : Type 0 where
    end : Fields
    field : String → Json → Fields → Fields

abbrev pub items : Items → List Json
items nil = []
items (cons v vs) = v ∷ items vs

abbrev pub from_items : List Json → Items
from_items [] = nil
from_items (v ∷ vs) = cons v (from_items vs)

-- `object[key]`.
unfoldable pub get : String → Fields → Option Json
get key end = none
get key (field k v fs) = if str_eq k key then some v else get key fs

-- `Number.isFinite`.
abbrev pub is_finite : Number → Bool
is_finite (finite _ _ _) = true
is_finite (infinite _) = false
is_finite nan = false

-- `n < x`, for a number n that is not negative.
unfoldable pub below : ℕ → Number → Bool
below n (finite false numerator k) = ltb (n * 2 ^ k) numerator
below n (finite true numerator k) = false
below n (infinite negative) = not negative
below n nan = false

-- A natural number as the source's engine holds it.
abbrev pub whole : ℕ → Number
whole n = finite false n 0
