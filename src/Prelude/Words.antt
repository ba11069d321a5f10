-- ===== src/Prelude/Words.antt =====
-- Python's `str.strip` and `str.upper`, on the characters of ASCII.
use Prim.Native.Nat.{ℕ, zero, suc, ◌-◌, compare, Ordering}
use Prim.Native.Char.{Char, char, code, IsScalar}
use Prim.Native.String.{String}
use mathlib.Core.Path.{◌≡◌, refl, ap, ◌∙◌}
use mathlib.Core.Logic.{inl, inr}
use mathlib.Core.Bool.{Bool, true, false, ◌&&◌, ◌||◌}
use native.Mathlib.Omega.{arith}
use crypto_derivative_algo_t.Prelude.Tests.{leb, eqb, if◌then◌else◌, Bool-cases}

-- Spaces, the control characters from tab to carriage return, and the four separators.
pub is_space : Char → Bool
is_space c =
    eqb (code c) 32 || (leb 9 (code c) && leb (code c) 13) || (leb 28 (code c) && leb (code c) 31)

small-IsScalar : (n : ℕ) → compare n 55296 ≡ Ordering.lt → IsScalar n
small-IsScalar n h = rw h tt

char_of : (n : ℕ) → (o : Ordering) → compare n 55296 ≡ o → Char → Char
char_of n Ordering.lt h c = char n (small-IsScalar n h)
char_of n Ordering.eq h c = c
char_of n Ordering.gt h c = c

-- A lower-case letter of ASCII, 32 places down.
pub upper_char : Char → Char
unfolding char_of
upper_char c =
    if leb 97 (code c) && leb (code c) 122
    then char_of (code c - 32) (compare (code c - 32) 55296) refl c
    else c

unfoldable pub upper : String → String
unfolding upper_char small-IsScalar
upper String.[] = String.[]
upper (String.◌∷◌ c s) = String.◌∷◌ (upper_char c) (upper s)

-- The text without its leading spaces.
pub lstrip : String → String
lstrip String.[] = String.[]
lstrip (String.◌∷◌ c s) = let rest = lstrip s in if is_space c then rest else String.◌∷◌ c s

-- One character put in front of a text that has no trailing spaces.
pub keep_char : Char → String → String
keep_char c String.[] = if is_space c then String.[] else String.◌∷◌ c String.[]
keep_char c (String.◌∷◌ d s) = String.◌∷◌ c (String.◌∷◌ d s)

pub rstrip : String → String
unfolding keep_char
rstrip String.[] = String.[]
rstrip (String.◌∷◌ c s) = keep_char c (rstrip s)

unfoldable pub strip : String → String
unfolding lstrip rstrip is_space
strip s = rstrip (lstrip s)

strip-upper_test : upper (strip "  btcUsdt\n") ≡ "BTCUSDT"
unfolding upper strip
strip-upper_test = refl

-- Both are idempotent, so that a symbol is normal after one pass.
abbrev is_lower : Char → Bool
is_lower c = leb 97 (code c) && leb (code c) 122

upper_char_fixes : (c : Char) → is_lower c ≡ false → upper_char c ≡ c
unfolding upper_char
upper_char_fixes c h = rw h

code-char_of :
    (n : ℕ) (o : Ordering) (h : compare n 55296 ≡ o) (c : Char)
    → o ≡ Ordering.lt
    → code (char_of n o h c) ≡ n
unfolding char_of
code-char_of n Ordering.lt h c e = refl
code-char_of n Ordering.eq h c e = cc
code-char_of n Ordering.gt h c e = cc

code-upper_char : (c : Char) → is_lower c ≡ true → code (upper_char c) ≡ code c - 32
unfolding upper_char
code-upper_char c h =
    rw h (code-char_of (code c - 32) (compare (code c - 32) 55296) refl c (ground arith))

is_lower-upper_char : (c : Char) → is_lower (upper_char c) ≡ false
is_lower-upper_char c = elim (Bool-cases (is_lower c)) [
  | inl h ↦ ground (arith, code-upper_char c h)
  | inr h ↦ rw (upper_char_fixes c h) h
]

upper_char_idem : (c : Char) → upper_char (upper_char c) ≡ upper_char c
upper_char_idem c = upper_char_fixes (upper_char c) (is_lower-upper_char c)

is_space-upper_char : (c : Char) → is_space (upper_char c) ≡ is_space c
unfolding is_space
is_space-upper_char c = elim (Bool-cases (is_lower c)) [
  | inl h ↦ ground (arith, code-upper_char c h)
  | inr h ↦ rw (upper_char_fixes c h)
]

pub upper_idem : (s : String) → upper (upper s) ≡ upper s
unfolding upper
upper_idem String.[] = refl
upper_idem (String.◌∷◌ c s) = cc (upper_char_idem c, upper_idem s)

lstrip-upper : (s : String) → lstrip (upper s) ≡ upper (lstrip s)
unfolding upper lstrip
lstrip-upper String.[] = refl
lstrip-upper (String.◌∷◌ c s) =
    rw (is_space-upper_char c)
      (elim (Bool-cases (is_space c)) [ inl h ↦ rw h (lstrip-upper s) | inr h ↦ rw h ])

keep_char-upper :
    (c : Char) (s : String) → keep_char (upper_char c) (upper s) ≡ upper (keep_char c s)
unfolding upper keep_char
keep_char-upper c String.[] =
    rw (is_space-upper_char c) (elim (Bool-cases (is_space c)) [ inl h ↦ rw h | inr h ↦ rw h ])
keep_char-upper c (String.◌∷◌ d s) = refl

rstrip-upper : (s : String) → rstrip (upper s) ≡ upper (rstrip s)
unfolding upper rstrip
rstrip-upper String.[] = refl
rstrip-upper (String.◌∷◌ c s) = rw (rstrip-upper s) (keep_char-upper c (rstrip s))

lstrip-keep_char :
    (c : Char) (s : String)
    → lstrip (keep_char c s) ≡ (if is_space c then lstrip s else keep_char c s)
unfolding lstrip keep_char
lstrip-keep_char c String.[] = elim (Bool-cases (is_space c)) [ inl h ↦ rw h | inr h ↦ rw h (rw h) ]
lstrip-keep_char c (String.◌∷◌ d s) = ground arith

lstrip-rstrip : (s : String) → lstrip (rstrip s) ≡ rstrip (lstrip s)
unfolding lstrip rstrip
lstrip-rstrip String.[] = refl
lstrip-rstrip (String.◌∷◌ c s) = ground (arith, lstrip-keep_char c (rstrip s), lstrip-rstrip s)

lstrip_idem : (s : String) → lstrip (lstrip s) ≡ lstrip s
unfolding lstrip
lstrip_idem String.[] = refl
lstrip_idem (String.◌∷◌ c s) = ground (arith, lstrip_idem s)

keep_char_idem : (c : Char) (s : String) → rstrip (keep_char c s) ≡ keep_char c (rstrip s)
unfolding rstrip keep_char
keep_char_idem c String.[] = elim (Bool-cases (is_space c)) [ inl h ↦ rw h | inr h ↦ rw h (rw h) ]
keep_char_idem c (String.◌∷◌ d s) = refl

rstrip_idem : (s : String) → rstrip (rstrip s) ≡ rstrip s
unfolding rstrip
rstrip_idem String.[] = refl
rstrip_idem (String.◌∷◌ c s) = rw (keep_char_idem c (rstrip s), rstrip_idem s)

pub strip_idem : (s : String) → strip (strip s) ≡ strip s
unfolding strip
strip_idem s =
    ap rstrip (lstrip-rstrip (lstrip s))
    ∙ rstrip_idem (lstrip (lstrip s))
    ∙ ap rstrip (lstrip_idem s)

pub strip-upper : (s : String) → strip (upper s) ≡ upper (strip s)
unfolding strip
strip-upper s = ap rstrip (lstrip-upper s) ∙ rstrip-upper (lstrip s)

-- `text[:n]`
unfoldable pub take_chars : ℕ → String → String
take_chars zero s = String.[]
take_chars (suc n) String.[] = String.[]
take_chars (suc n) (String.◌∷◌ c s) = String.◌∷◌ c (take_chars n s)
