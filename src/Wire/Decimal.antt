-- ===== src/Wire/Decimal.antt =====
-- `str(n)` of a number: its decimal digits, as bytes and as text.
use imperecta.Base.{
  ℕ, zero, suc, ◌+◌, ◌-◌, ◌*◌, ◌/◌, ◌%◌, ◌<◌, String, ◌≡◌, refl, ap, ◌∙◌, sym, Bool, false, ◌&&◌,
  [], ◌∷◌, ◌++◌, arith, ltb, leb, if◌then◌else◌, ℤ, pos, negsuc,
}
use imperecta.Wire.Utf8.{Bytes}
use Prim.Native.String.{◌++◌ as ◌++ₛ◌}

-- The digits of `n` in front of `out`. The fuel `suc n` is enough: each round divides by ten.
digits : ℕ → ℕ → Bytes → Bytes
digits zero n out = out
digits (suc fuel) n out =
    let rest = digits fuel (n / 10) ((48 + n % 10) ∷ out) in
    if ltb n 10 then (48 + n) ∷ out else rest

-- `str(n).encode("ascii")`
unfoldable pub decimal : ℕ → Bytes
unfolding digits
decimal n = digits (suc n) n []

is_digit : ℕ → Bool
is_digit c = leb 48 c && leb c 57

-- a rest of the input that does not go on with a digit
abbrev pub NoDigit : Bytes → Type 0
NoDigit [] = Unit
NoDigit (c ∷ s) = (leb 48 c && leb c 57) ≡ false

-- reads the digits in front, behind the number read so far
read_number : Bytes → ℕ → ℕ × Bytes
read_number [] n = (n, [])
read_number (c ∷ s) n =
    let rest = read_number s (n * 10 + (c - 48)) in
    if leb 48 c && leb c 57 then rest else (n, c ∷ s)

read_number-digit :
    (d n : ℕ) (out : Bytes) → d < 10 → read_number ((48 + d) ∷ out) n ≡ read_number out (n * 10 + d)
unfolding read_number
read_number-digit d n out h = ground arith

div-mod-ten : (n : ℕ) → n / 10 * 10 + n % 10 ≡ n
div-mod-ten n = omega arith

-- Enough fuel: the digits read back as the number.
read_number-digits :
    (fuel n : ℕ) (out : Bytes) → n < fuel → read_number (digits fuel n out) 0 ≡ read_number out n
unfolding digits
read_number-digits zero n out h = absurd (omega arith)
read_number-digits (suc fuel) n out h = ground (
  arith,
  read_number-digit n 0 out,
  read_number-digits fuel (n / 10) ((48 + n % 10) ∷ out),
  read_number-digit (n % 10) (n / 10) out,
  div-mod-ten n,
)

digits-append :
    (fuel n : ℕ) (out rest : Bytes) → digits fuel n out ++ rest ≡ digits fuel n (out ++ rest)
unfolding digits
digits-append zero n out rest = refl
digits-append (suc fuel) n out rest =
    ground (arith, digits-append fuel (n / 10) ((48 + n % 10) ∷ out) rest)

read_number-stop : (xs : Bytes) (n : ℕ) → NoDigit xs → read_number xs n ≡ (n, xs)
unfolding read_number
read_number-stop [] n h = refl
read_number-stop (c ∷ xs) n h = rw h

read_number-decimal : (n : ℕ) (xs : Bytes) → NoDigit xs → read_number (decimal n ++ xs) 0 ≡ (n, xs)
unfolding decimal
read_number-decimal n xs h =
    rw digits-append (read_number-digits (suc n) n xs (omega arith) ∙ read_number-stop xs n h)

-- Where no digit follows, a decimal is read off in one way.
pub decimal-cancel :
    (n m : ℕ) (xs ys : Bytes)
    → NoDigit xs
    → NoDigit ys
    → decimal n ++ xs ≡ decimal m ++ ys
    → (n ≡ m) × (xs ≡ ys)
decimal-cancel n m xs ys hx hy h =
    let e : ◌≡◌ {A = ℕ × Bytes} (n, xs) (m, ys) =
      sym (read_number-decimal n xs hx)
      ∙ ap (λ s. read_number s 0) h
      ∙ read_number-decimal m ys hy in
    (ap (λ p. p.0) e, ap (λ p. p.1) e)

-- the texts of the digits
digit_text : ℕ → String
digit_text zero = "0"
digit_text (suc zero) = "1"
digit_text (suc (suc zero)) = "2"
digit_text (suc (suc (suc zero))) = "3"
digit_text (suc (suc (suc (suc zero)))) = "4"
digit_text (suc (suc (suc (suc (suc zero))))) = "5"
digit_text (suc (suc (suc (suc (suc (suc zero)))))) = "6"
digit_text (suc (suc (suc (suc (suc (suc (suc zero))))))) = "7"
digit_text (suc (suc (suc (suc (suc (suc (suc (suc zero)))))))) = "8"
digit_text (suc (suc (suc (suc (suc (suc (suc (suc (suc n))))))))) = "9"

text_of : Bytes → String
unfolding digit_text
text_of [] = ""
text_of (c ∷ s) = digit_text (c - 48) ++ₛ text_of s

-- `str(z)` of an `int`
unfoldable pub str_int : ℤ → String
unfolding text_of decimal
str_int (pos n) = text_of (decimal n)
str_int (negsuc n) = "-" ++ₛ text_of (decimal (n + 1))

str_int_test : str_int (pos 1203) ≡ "1203"
unfolding str_int
str_int_test = refl
