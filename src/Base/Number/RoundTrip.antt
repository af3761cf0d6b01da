-- ===== src/Base/Number/RoundTrip.antt =====
-- `int(str(n))` is `n`.
use grpc_helper.Base.{
  ℕ, zero, suc, ◌+◌, ◌-◌, ◌*◌, ◌/◌, ◌%◌, ◌<◌, String, ◌<>◌, ◌≡◌, refl, ap, ◌∙◌, Bool, true, false,
  some, List, [], ◌∷◌, arith, ltb, map_option, Bool-cases, inl, inr,
}
use grpc_helper.Base.Text.{codes, codes-append}
use grpc_helper.Base.Number.{pos, is_digit, int_digits, int, digit_text, digits, str}

codes-digit_text : (d : ℕ) → d < 10 → codes (digit_text d) ≡ (b'0' + d) ∷ []
unfolding digit_text
codes-digit_text zero h = refl
codes-digit_text (suc zero) h = refl
codes-digit_text (suc (suc zero)) h = refl
codes-digit_text (suc (suc (suc zero))) h = refl
codes-digit_text (suc (suc (suc (suc zero)))) h = refl
codes-digit_text (suc (suc (suc (suc (suc zero))))) h = refl
codes-digit_text (suc (suc (suc (suc (suc (suc zero)))))) h = refl
codes-digit_text (suc (suc (suc (suc (suc (suc (suc zero))))))) h = refl
codes-digit_text (suc (suc (suc (suc (suc (suc (suc (suc zero)))))))) h = refl
codes-digit_text (suc (suc (suc (suc (suc (suc (suc (suc (suc zero))))))))) h = refl
codes-digit_text (suc (suc (suc (suc (suc (suc (suc (suc (suc (suc n)))))))))) h =
    absurd (omega arith)

codes-digit :
    (n : ℕ) (out : String) → codes (digit_text (n % 10) <> out) ≡ (b'0' + n % 10) ∷ codes out
codes-digit n out = rw (codes-append, codes-digit_text (n % 10) (omega arith))

is_digit-add : (d : ℕ) → d < 10 → is_digit (b'0' + d) ≡ true
unfolding is_digit
is_digit-add d h = ground arith

sub_zero_digit : (n d : ℕ) → n * 10 + (b'0' + d - b'0') ≡ n * 10 + d
sub_zero_digit n d = omega arith

-- Reading one digit.
int_digits-digit :
    (first : Bool) (n d : ℕ) (s : List ℕ)
    → d < 10
    → int_digits first n ((b'0' + d) ∷ s) ≡ int_digits false (n * 10 + d) s
unfolding int_digits
int_digits-digit true n d s h = rw (is_digit-add d h, sub_zero_digit n d)
int_digits-digit false n d s h = rw (is_digit-add d h, sub_zero_digit n d)

low_digit : (n : ℕ) → ltb n 10 ≡ true → 0 * 10 + n % 10 ≡ n
low_digit n h = ground arith

high_digits : (n : ℕ) → n / 10 * 10 + n % 10 ≡ n
high_digits n = omega arith

above_ten : (m k : ℕ) → ltb m 10 ≡ false → m < suc k → m / 10 < k
above_ten m k e l = ground arith

-- Reading what `digits` has written goes on with what stood behind it.
int_digits-digits :
    (fuel n : ℕ) (out : String)
    → n < fuel
    → int_digits true 0 (codes (digits fuel n out)) ≡ int_digits false n (codes out)
unfolding digits
int_digits-digits zero n out h = absurd (omega arith)
int_digits-digits (suc fuel) n out h = elim (Bool-cases (ltb n 10)) [
  | inl small ↦
      rw (small, codes-digit n out)
        (int_digits-digit true 0 (n % 10) (codes out) (omega arith)
          ∙ ap (λ m. int_digits false m (codes out)) (low_digit n small))
  | inr large ↦ rw large (
      int_digits-digits fuel (n / 10) (digit_text (n % 10) <> out) (above_ten n fuel large h)
      ∙ rw codes-digit (
          int_digits-digit false (n / 10) (n % 10) (codes out) (omega arith)
          ∙ ap (λ m. int_digits false m (codes out)) (high_digits n)))
]

-- A text that begins with a digit has no sign and no spaces in front.
int_of_digits :
    (t : String) (d : ℕ) (s : List ℕ)
    → d < 10
    → codes t ≡ (b'0' + d) ∷ s
    → int t ≡ map_option pos (int_digits true 0 (codes t))
unfolding int
int_of_digits t d s h e = rw e (ground arith)

-- What `digits` writes begins with a digit.
digits-head :
    (fuel n : ℕ) (out : String)
    → n < fuel
    → (d : ℕ) × (d < 10) × ((s : List ℕ) × (codes (digits fuel n out) ≡ (b'0' + d) ∷ s))
unfolding digits
digits-head zero n out h = absurd (omega arith)
digits-head (suc fuel) n out h = elim (Bool-cases (ltb n 10)) [
  | inl small ↦ rw small (n % 10, omega arith, (codes out, codes-digit n out))
  | inr large ↦
      rw large (digits-head fuel (n / 10) (digit_text (n % 10) <> out) (above_ten n fuel large h))
]

-- Every number is read back from its decimal text.
pub int-str : (n : ℕ) → int (str n) ≡ some (pos n)
unfolding str int_digits
int-str n =
    let (d, small, (s, e)) = digits-head (suc n) n "" (omega arith) in
    int_of_digits (digits (suc n) n "") d s small e
    ∙ ap (map_option pos) (int_digits-digits (suc n) n "" (omega arith))
