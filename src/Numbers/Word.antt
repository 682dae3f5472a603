-- ===== src/Numbers/Word.antt =====
-- The arithmetic of Go's integers of a width, on their words.
use gad.Prelude.{
  ℕ, zero, suc, ◌+◌, ◌-◌, ◌*◌, ◌/◌, ◌%◌, ◌^◌, Bool, not, ◌&&◌, ltb, leb, ◌==◌, if◌then◌else◌,
}

unfoldable pub add_word : ℕ → ℕ → ℕ → ℕ
add_word w a b = (a + b) % 2 ^ w

unfoldable pub sub_word : ℕ → ℕ → ℕ → ℕ
sub_word w a b = (a + (2 ^ w - b)) % 2 ^ w

unfoldable pub mul_word : ℕ → ℕ → ℕ → ℕ
mul_word w a b = (a * b) % 2 ^ w

-- Whether the word of a signed integer is that of a negative one.
unfoldable pub is_negative : ℕ → ℕ → Bool
is_negative w a = leb (2 ^ (w - 1)) a

unfoldable pub magnitude : ℕ → ℕ → ℕ
magnitude w a = if is_negative w a then 2 ^ w - a else a

unfoldable pub with_sign : ℕ → Bool → ℕ → ℕ
with_sign w negative m = (if negative then 2 ^ w - m else m) % 2 ^ w

abbrev differ : Bool → Bool → Bool
differ a b = if a then not b else b

-- Division that rounds towards 0, and the remainder with the sign of the dividend.
unfoldable pub quo_word : ℕ → Bool → ℕ → ℕ → ℕ
quo_word w signed a b =
    if signed
    then with_sign w (differ (is_negative w a) (is_negative w b)) (magnitude w a / magnitude w b)
    else a / b

unfoldable pub rem_word : ℕ → Bool → ℕ → ℕ → ℕ
rem_word w signed a b =
    if signed then with_sign w (is_negative w a) (magnitude w a % magnitude w b) else a % b

-- An operation on each of the bits.
unfoldable pub bitwise : (Bool → Bool → Bool) → ℕ → ℕ → ℕ → ℕ
bitwise f zero a b = 0
bitwise f (suc w) a b =
    (if f (a % 2 == 1) (b % 2 == 1) then 1 else 0) + 2 * bitwise f w (a / 2) (b / 2)

abbrev pub and_not_bits : Bool → Bool → Bool
and_not_bits x y = x && not y

abbrev pub xor_bits : Bool → Bool → Bool
xor_bits x y = differ x y

unfoldable pub shl_word : ℕ → ℕ → ℕ → ℕ
shl_word w a n = if ltb n w then (a * 2 ^ n) % 2 ^ w else 0

-- A negative word is shifted with its sign, which is the shift of its complement.
unfoldable pub shr_word : ℕ → Bool → ℕ → ℕ → ℕ
shr_word w signed a n =
    let ones = 2 ^ w - 1 in
    let flipped = ones - (if ltb n w then (ones - a) / 2 ^ n else 0) in
    let plain = if ltb n w then a / 2 ^ n else 0 in
    if signed && is_negative w a then flipped else plain

-- Signed words are compared with the sign bit flipped.
unfoldable pub order_word : ℕ → Bool → ℕ → ℕ
order_word w signed a = if signed then (a + 2 ^ (w - 1)) % 2 ^ w else a

unfoldable pub less_word : ℕ → Bool → ℕ → ℕ → Bool
unfolding order_word
less_word w signed a b = ltb (order_word w signed a) (order_word w signed b)

unfoldable pub less_eq_word : ℕ → Bool → ℕ → ℕ → Bool
unfolding order_word
less_eq_word w signed a b = leb (order_word w signed a) (order_word w signed b)

-- The word of 64 bits of a rune, which is signed and has 32.
unfoldable pub extend : ℕ → ℕ
extend a = if is_negative 32 a then a + (2 ^ 64 - 2 ^ 32) else a

-- The rune of a word of 64 bits.
unfoldable pub to_rune : ℕ → ℕ
to_rune a = a % 2 ^ 32
