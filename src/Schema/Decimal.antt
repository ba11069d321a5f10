-- ===== src/Schema/Decimal.antt =====
-- `Decimal(s)` of a text that the pattern `^-?\d+(\.\d+)?$` of packages/schemas/src/schemas/market.py
-- admits, as a coefficient over a power of ten, and the equality of two such values.
use Prim.Native.Char.{Char, code}
use crypto_derivative_algo_t.Prelude.{
  ℕ, ◌+◌, ◌-◌, ◌*◌, ◌^◌, String, ◌≡◌, refl, Bool, true, false, not, ◌&&◌, ◌||◌, Option, none, some,
  eqb, leb, if◌then◌else◌,
}

pub record Decimal : Type 0 where
  pub negative : Bool
  pub coefficient : ℕ
  pub places : ℕ

is_digit : Char → Bool
is_digit c = leb 48 (code c) && leb (code c) 57

-- What the scan has read: whether a point, and whether a digit since the beginning or the point.
record Scan : Type 0 where
  value : ℕ
  places : ℕ
  after_point : Bool
  has_digit : Bool

push_digit : ℕ → Scan → Scan
push_digit n s = record s {
  value = s.value * 10 + n;
  places = (if s.after_point then s.places + 1 else s.places);
  has_digit = true;
}

scan : Scan → String → Option Scan
unfolding is_digit push_digit
scan s String.[] = if s.has_digit then some s else none
scan s (String.◌∷◌ c rest) =
    let digits = scan (push_digit (code c - 48) s) rest in
    let fraction = scan (record s { after_point = true; has_digit = false }) rest in
    if is_digit c
    then digits
    else if eqb (code c) 46 && s.has_digit && not s.after_point
    then fraction
    else none

unsigned : Bool → String → Option Decimal
unfolding scan
unsigned negative text =
    elim (scan (record { value = 0; places = 0; after_point = false; has_digit = false }) text) [
      | none ↦ none
      | some s ↦ some (record { negative = negative; coefficient = s.value; places = s.places })
    ]

-- Decimal(str(s)); `none` for a text that the pattern refuses.
unfoldable pub parse_decimal : String → Option Decimal
unfolding unsigned
parse_decimal String.[] = none
parse_decimal (String.◌∷◌ c rest) =
    let minus = unsigned true rest in
    let plain = unsigned false (String.◌∷◌ c rest) in if eqb (code c) 45 then minus else plain

-- Equality of values: zero has no sign, and trailing zeros do not count.
unfoldable pub same_value : Decimal → Decimal → Bool
same_value a b =
    eqb (a.coefficient * 10 ^ b.places) (b.coefficient * 10 ^ a.places)
    && (eqb a.coefficient 0 || (if a.negative then b.negative else not b.negative))

same_value_option : Option Decimal → Option Decimal → Bool
unfolding same_value
same_value_option (some a) (some b) = same_value a b
same_value_option _ _ = false

-- Decimal(str(a)) == Decimal(str(b))
unfoldable pub decimal_eq : String → String → Bool
unfolding parse_decimal same_value_option
decimal_eq a b = same_value_option (parse_decimal a) (parse_decimal b)

decimal_eq_test :
    (decimal_eq "1.50" "1.5" ≡ true)
    × (decimal_eq "-0" "0.00" ≡ true)
    × (decimal_eq "-1" "1" ≡ false)
    × (parse_decimal "1." ≡ none)
unfolding decimal_eq
decimal_eq_test = (refl, refl, refl, refl)
