-- ===== src/Globals/Numbers.antt =====
-- ParseIntegerOptarg of iwyu_globals.cc, with `strtol` in base 10 and `atoi` of the C library: `long` has
-- 64 bits, and `strtol` stops at its bounds.
pub mod Decimal
use include_what_you_use.Base.{
  ℕ, ◌+◌, ◌-◌, ◌*◌, Bool, true, false, not, ◌&&◌, Option, none, some, [], ◌∷◌, ◌==◌, leb,
  if◌then◌else◌, is_empty, min, length,
}
use include_what_you_use.Base.Int.{ℤ, pos, negsuc, neg}
use include_what_you_use.Text.{Text, is_space}

abbrev pub is_digit : ℕ → Bool
is_digit c = leb b'0' c && leb c b'9'

-- The digits in front: their value behind that of `acc`, and what follows them.
unfoldable pub read_digits : ℕ → Text → ℕ × Text
read_digits acc [] = (acc, [])
read_digits acc (c ∷ s) =
    let rest = read_digits (acc * 10 + (c - b'0')) s in if is_digit c then rest else (acc, c ∷ s)

unfoldable pub skip_space : Text → Text
skip_space [] = []
skip_space (c ∷ s) = let rest = skip_space s in if is_space c then rest else c ∷ s

abbrev pub starts_digit : Text → Bool
starts_digit [] = false
starts_digit (c ∷ _) = is_digit c

abbrev pub long_max : ℕ
long_max = 9223372036854775807

-- The sign, with what follows it.
unfoldable pub read_sign : Text → Bool × Text
read_sign [] = (false, [])
read_sign (c ∷ s) =
    if c == b'-' then (true, s) else if c == b'+' then (false, s) else (false, c ∷ s)

-- `strtol(str, &endptr, 10)`: the value, and the text at `endptr`, which is `str` where there is no number.
unfoldable pub strtol : Text → ℤ × Text
unfolding skip_space read_sign read_digits
strtol str =
    let signed = read_sign (skip_space str) in
    let digits = read_digits 0 signed.1 in
    if starts_digit signed.1
    then (
      (if signed.0 then neg (min digits.0 (long_max + 1)) else pos (min digits.0 long_max)),
      digits.1,
    )
    else (pos 0, str)

abbrev pub int_max : ℕ
int_max = 2147483647

-- `val > INT_MAX || val < INT_MIN` is false.
unfoldable pub is_int : ℤ → Bool
is_int (pos n) = leb n int_max
is_int (negsuc n) = leb n int_max

-- `endptr == optarg` says that nothing was read.
unfoldable pub parse_integer_optarg : Text → Option ℤ
unfolding strtol is_int
parse_integer_optarg optarg =
    let read = strtol optarg in
    if length read.1 == length optarg
    then none
    else if not (is_empty read.1)
    then none
    else if not (is_int read.0)
    then none
    else some read.0

-- `atoi`, on a number that an `int` holds.
unfoldable pub atoi : Text → ℤ
unfolding strtol
atoi str = (strtol str).0
