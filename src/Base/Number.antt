-- ===== src/Base/Number.antt =====
-- Python's integers as the program reads and prints them: `int(text)` and `str(number)`.
-- Texts are read as ASCII: a code point above 127 is neither a digit nor a space here.
pub mod RoundTrip
use grpc_helper.Base.{
  ℕ, zero, suc, ◌+◌, ◌-◌, ◌*◌, ◌/◌, ◌%◌, String, ◌<>◌, Bool, true, false, not, ◌&&◌, ◌||◌, Option,
  none, some, List, [], ◌∷◌, ltb, leb, ◌=ℕ◌, if◌then◌else◌, map_option,
}
use grpc_helper.Base.Text.{codes}

-- `negsuc n` is -(n + 1).
pub data ℤ : Type 0 where
  pos : ℕ → ℤ
  negsuc : ℕ → ℤ

-- `n <= 0`
unfoldable pub not_positive : ℤ → Bool
not_positive (pos n) = n =ℕ 0
not_positive (negsuc n) = true

negate : ℕ → ℤ
negate zero = pos 0
negate (suc n) = negsuc n

pub is_digit : ℕ → Bool
is_digit c = leb b'0' c && leb c b'9'

pub is_space : ℕ → Bool
is_space c = (leb 9 c && leb c 13) || c =ℕ 32

pub skip_spaces : List ℕ → List ℕ
skip_spaces [] = []
skip_spaces (c ∷ s) = let rest = skip_spaces s in if is_space c then rest else c ∷ s

-- The digits of `int(text)`, with an underscore between two digits where wanted, then spaces to
-- the end. The flag says that the next character has to be a digit.
pub int_digits : Bool → ℕ → List ℕ → Option ℕ
int_digits true n [] = none
int_digits false n [] = some n
int_digits first n (c ∷ s) =
    let more = int_digits false (n * 10 + (c - b'0')) s in
    let after = int_digits true n s in
    if is_digit c
    then more
    else if first
    then none
    else if c =ℕ b'_'
    then after
    else elim (skip_spaces (c ∷ s)) [ [] ↦ some n | x ∷ r ↦ none ]

pub signed : List ℕ → Option ℤ
signed [] = none
signed (c ∷ s) =
    if c =ℕ b'-'
    then map_option negate (int_digits true 0 s)
    else if c =ℕ b'+'
    then map_option pos (int_digits true 0 s)
    else map_option pos (int_digits true 0 (c ∷ s))

-- `int(text)`; `none` is the `ValueError`.
unfoldable pub int : String → Option ℤ
unfolding signed skip_spaces int_digits is_digit is_space negate
int text = signed (skip_spaces (codes text))

digit_text : ℕ → String
digit_text zero = "0"
digit_text (suc zero) = "1"
digit_text (suc (suc zero)) = "2"
digit_text (suc (suc (suc zero))) = "3"
digit_text (suc (suc (suc (suc zero)))) = "4"
digit_text (suc (suc (suc (suc (suc zero))))) = "5"
digit_text (suc (suc (suc (suc (suc (suc zero)))))) = "6"
digit_text (suc (suc (suc (suc (suc (suc (suc zero))))))) = "7"
digit_text (suc (suc (suc (suc (suc (suc (suc (suc zero)))))))) = "8"
digit_text _ = "9"

-- The decimal digits of a number; a number has fewer digits than its successor counts.
pub digits : ℕ → ℕ → String → String
digits zero n out = out
digits (suc fuel) n out =
    let rest = digits fuel (n / 10) (digit_text (n % 10) <> out) in
    if ltb n 10 then digit_text (n % 10) <> out else rest

-- `str(n)` for a number that is not negative
unfoldable pub str : ℕ → String
unfolding digits digit_text
str n = digits (suc n) n ""

-- `n > 0`, `n == 0` and `str(n)`
unfoldable pub is_positive : ℤ → Bool
is_positive n = not (not_positive n)

unfoldable pub is_zero : ℤ → Bool
is_zero (pos n) = n =ℕ 0
is_zero (negsuc n) = false

unfoldable pub str_ℤ : ℤ → String
str_ℤ (pos n) = str n
str_ℤ (negsuc n) = "-" <> str (suc n)
