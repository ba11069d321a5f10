-- ===== src/Ids/Binary.antt =====
-- The shifts and masks of ids.py as arithmetic.
use Prim.Native.Nat.{max, min, bit_and, bit_or, digits, bit_and-bitwise, bit_or-bitwise}
use crypto_derivative_algo_t.Prelude.{
  ℕ, zero, suc, ◌+◌, ◌-◌, ◌*◌, ◌/◌, ◌%◌, ◌≤◌, ◌<◌, ◌≡◌, refl, ap, ◌∙◌, arith,
}

-- What the native operations stand for; the first argument counts the digits that are left.
abbrev or_digits : ℕ → ℕ → ℕ → ℕ
or_digits = digits (λ rest. rest) max

abbrev and_digits : ℕ → ℕ → ℕ → ℕ
and_digits = digits (λ rest. 0) min

or_digits_end : (n b : ℕ) → or_digits n 0 b ≡ b
or_digits_end zero b = refl
or_digits_end (suc n) b = refl

and_digits_end : (n b : ℕ) → and_digits n 0 b ≡ 0
and_digits_end zero b = refl
and_digits_end (suc n) b = refl

-- More digits than the number has change nothing.
or_digits_enough : (n m a b : ℕ) → a ≤ n → a ≤ m → or_digits n a b ≡ or_digits m a b
or_digits_enough n m zero b h k = omega (arith, or_digits_end n b, or_digits_end m b)
or_digits_enough (suc n) (suc m) (suc a) b h k =
    omega (arith, or_digits_enough n m (suc a / 2) (b / 2) (omega arith) (omega arith))
or_digits_enough zero m (suc a) b h k = absurd (omega arith)
or_digits_enough (suc n) zero (suc a) b h k = absurd (omega arith)

and_digits_enough : (n m a b : ℕ) → a ≤ n → a ≤ m → and_digits n a b ≡ and_digits m a b
and_digits_enough n m zero b h k = omega (arith, and_digits_end n b, and_digits_end m b)
and_digits_enough (suc n) (suc m) (suc a) b h k =
    omega (arith, and_digits_enough n m (suc a / 2) (b / 2) (omega arith) (omega arith))
and_digits_enough zero m (suc a) b h k = absurd (omega arith)
and_digits_enough (suc n) zero (suc a) b h k = absurd (omega arith)

-- The lowest digit, and the others.
or_step : (a b : ℕ) → bit_or a b ≡ bit_or (a / 2) (b / 2) * 2 + max (a % 2) (b % 2)
or_step zero b = omega (arith, bit_or-bitwise 0 b, bit_or-bitwise 0 (b / 2))
or_step (suc a) b = omega (
  arith,
  bit_or-bitwise (suc a) b,
  bit_or-bitwise (suc a / 2) (b / 2),
  or_digits_enough a (suc a / 2) (suc a / 2) (b / 2) (omega arith) (omega arith),
)

and_step : (a b : ℕ) → bit_and a b ≡ bit_and (a / 2) (b / 2) * 2 + min (a % 2) (b % 2)
and_step zero b = omega (arith, bit_and-bitwise 0 b, bit_and-bitwise 0 (b / 2))
and_step (suc a) b = omega (
  arith,
  bit_and-bitwise (suc a) b,
  bit_and-bitwise (suc a / 2) (b / 2),
  and_digits_enough a (suc a / 2) (suc a / 2) (b / 2) (omega arith) (omega arith),
)

or_zero : (n a : ℕ) → a ≤ n → bit_or a 0 ≡ a
or_zero n zero h = bit_or-bitwise 0 0
or_zero zero (suc a) h = absurd (omega arith)
or_zero (suc n) (suc a) h = omega (arith, or_step (suc a) 0, or_zero n (suc a / 2) (omega arith))

and_zero : (n a : ℕ) → a ≤ n → bit_and a 0 ≡ 0
and_zero n zero h = bit_and-bitwise 0 0
and_zero zero (suc a) h = absurd (omega arith)
and_zero (suc n) (suc a) h = omega (arith, and_step (suc a) 0, and_zero n (suc a / 2) (omega arith))

-- `a << k`
unfoldable pub shift_left : ℕ → ℕ → ℕ
shift_left a zero = a
shift_left a (suc k) = shift_left a k * 2

positive-shift_left : (k : ℕ) → 1 ≤ shift_left 1 k
unfolding shift_left
positive-shift_left zero = omega arith
positive-shift_left (suc k) = omega (arith, positive-shift_left k)

-- Joining a shifted number with one that is below the shift adds them.
pub bit_or-shift_left :
    (k a b : ℕ) → b < shift_left 1 k → bit_or (shift_left a k) b ≡ shift_left a k + b
unfolding shift_left
bit_or-shift_left zero a b h =
    let e : b ≡ 0 = omega arith in rw e (omega (arith, or_zero a a (omega arith)))
bit_or-shift_left (suc k) a b h =
    let s = shift_left a k in
    let half : s * 2 / 2 ≡ s = omega arith in
    let ih = bit_or-shift_left k a (b / 2) (omega arith) in
    let step : bit_or (s * 2) b ≡ bit_or s (b / 2) * 2 + max (s * 2 % 2) (b % 2) =
      or_step (s * 2) b ∙ ap (λ x. bit_or x (b / 2) * 2 + max (s * 2 % 2) (b % 2)) half in
    omega (arith, step, ih)

-- A mask of ones keeps what is below it, and nothing of the next number.
pub bit_and-mask : (k a : ℕ) → a < shift_left 1 k → bit_and a (shift_left 1 k - 1) ≡ a
unfolding shift_left
bit_and-mask zero a h = omega (arith, and_zero a a (omega arith))
bit_and-mask (suc k) a h =
    let p = shift_left 1 k in
    let half : (p * 2 - 1) / 2 ≡ p - 1 = omega (arith, positive-shift_left k) in
    let ih = bit_and-mask k (a / 2) (omega arith) in
    let step : bit_and a (p * 2 - 1) ≡ bit_and (a / 2) (p - 1) * 2 + min (a % 2) ((p * 2 - 1) % 2) =
      and_step a (p * 2 - 1)
      ∙ ap (λ x. bit_and (a / 2) x * 2 + min (a % 2) ((p * 2 - 1) % 2)) half in
    omega (arith, step, ih, positive-shift_left k)

pub bit_and-past_mask : (k : ℕ) → bit_and (shift_left 1 k) (shift_left 1 k - 1) ≡ 0
unfolding shift_left
bit_and-past_mask zero = refl
bit_and-past_mask (suc k) =
    let p = shift_left 1 k in
    let up : p * 2 / 2 ≡ p = omega arith in
    let down : (p * 2 - 1) / 2 ≡ p - 1 = omega (arith, positive-shift_left k) in
    let step : bit_and (p * 2) (p * 2 - 1)
        ≡ bit_and p (p - 1) * 2 + min (p * 2 % 2) ((p * 2 - 1) % 2) =
      and_step (p * 2) (p * 2 - 1)
      ∙ ap (λ x. bit_and x ((p * 2 - 1) / 2) * 2 + min (p * 2 % 2) ((p * 2 - 1) % 2)) up
      ∙ ap (λ x. bit_and p x * 2 + min (p * 2 % 2) ((p * 2 - 1) % 2)) down in
    omega (arith, step, bit_and-past_mask k, positive-shift_left k)
