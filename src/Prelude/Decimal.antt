-- ===== src/Prelude/Decimal.antt =====
-- Go's int64 and `strconv.FormatInt` and `strconv.ParseInt` at base 10.
use Prim.Native.Nat.{ℕ, zero, suc, ◌+◌, ◌-◌, ◌*◌, ◌/◌, ◌%◌, ◌^◌, ◌<◌}
use Prim.Native.Char.{Char, code}
use Prim.Native.String.{String}
use mathlib.Core.Path.{◌≡◌, refl, ◌∙◌, ap, sym, subst}
use mathlib.Core.Logic.{inl, inr}
use mathlib.Core.Bool.{Bool, false, ◌&&◌}
use mathlib.Core.Option.{Option, none, some}
use native.Mathlib.Omega.{arith}
use open_im.Prelude.Tests.{leb, ltb, eqb, if◌then◌else◌, Bool-cases}

-- `negsuc n` is -(n + 1).
pub data ℤ : Type 0 where
  pos : ℕ → ℤ
  negsuc : ℕ → ℤ

abbrev pub is_zero : ℤ → Bool
is_zero (pos n) = eqb n 0
is_zero (negsuc n) = false

-- The values of an int64.
abbrev pub IsInt64 : ℤ → Type 0
IsInt64 (pos n) = n < 2 ^ 63
IsInt64 (negsuc n) = n < 2 ^ 63

digit_char : ℕ → Char
digit_char zero = "0"
digit_char (suc zero) = "1"
digit_char (suc (suc zero)) = "2"
digit_char (suc (suc (suc zero))) = "3"
digit_char (suc (suc (suc (suc zero)))) = "4"
digit_char (suc (suc (suc (suc (suc zero))))) = "5"
digit_char (suc (suc (suc (suc (suc (suc zero)))))) = "6"
digit_char (suc (suc (suc (suc (suc (suc (suc zero))))))) = "7"
digit_char (suc (suc (suc (suc (suc (suc (suc (suc zero)))))))) = "8"
digit_char _ = "9"

-- The digits of `n` in front of `rest`; the fuel is above `n`.
format_onto : ℕ → ℕ → String → String
format_onto zero n rest = rest
format_onto (suc fuel) n rest =
    let more = format_onto fuel (n / 10) (String.◌∷◌ (digit_char (n % 10)) rest) in
    if ltb n 10 then String.◌∷◌ (digit_char n) rest else more

pub format_nat : ℕ → String
unfolding format_onto
format_nat n = format_onto (suc n) n ""

pub format_int : ℤ → String
unfolding format_nat
format_int (pos n) = format_nat n
format_int (negsuc n) = String.◌∷◌ "-" (format_nat (suc n))

abbrev is_digit : ℕ → Bool
is_digit c = leb 48 c && leb c 57

parse_from : ℕ → String → Option ℕ
parse_from acc String.[] = some acc
parse_from acc (String.◌∷◌ c s) =
    let rest = parse_from (acc * 10 + (code c - 48)) s in if is_digit (code c) then rest else none

-- `strconv.ParseUint`, without its bound: at least one digit.
parse_nat : String → Option ℕ
unfolding parse_from
parse_nat String.[] = none
parse_nat (String.◌∷◌ c s) = parse_from 0 (String.◌∷◌ c s)

abbrev to_pos : Option ℕ → Option ℤ
to_pos none = none
to_pos (some n) = if ltb n (2 ^ 63) then some (pos n) else none

abbrev to_neg : Option ℕ → Option ℤ
to_neg none = none
to_neg (some zero) = some (pos 0)
to_neg (some (suc n)) = if ltb n (2 ^ 63) then some (negsuc n) else none

unfoldable pub parse_int : String → Option ℤ
unfolding parse_nat
parse_int String.[] = none
parse_int (String.◌∷◌ c s) =
    if eqb (code c) 43
    then to_pos (parse_nat s)
    else if eqb (code c) 45
    then to_neg (parse_nat s)
    else to_pos (parse_nat (String.◌∷◌ c s))

code-digit_char : (d : ℕ) → d < 10 → code (digit_char d) ≡ 48 + d
unfolding digit_char
code-digit_char zero h = refl
code-digit_char (suc zero) h = refl
code-digit_char (suc (suc zero)) h = refl
code-digit_char (suc (suc (suc zero))) h = refl
code-digit_char (suc (suc (suc (suc zero)))) h = refl
code-digit_char (suc (suc (suc (suc (suc zero))))) h = refl
code-digit_char (suc (suc (suc (suc (suc (suc zero)))))) h = refl
code-digit_char (suc (suc (suc (suc (suc (suc (suc zero))))))) h = refl
code-digit_char (suc (suc (suc (suc (suc (suc (suc (suc zero)))))))) h = refl
code-digit_char (suc (suc (suc (suc (suc (suc (suc (suc (suc zero))))))))) h = refl
code-digit_char (suc (suc (suc (suc (suc (suc (suc (suc (suc (suc d)))))))))) h =
    absurd (omega arith)

parse_from-digit :
    (acc d : ℕ) (s : String)
    → d < 10
    → parse_from acc (String.◌∷◌ (digit_char d) s) ≡ parse_from (acc * 10 + d) s
unfolding parse_from
parse_from-digit acc d s h =
    let same : acc * 10 + (48 + d - 48) ≡ acc * 10 + d = omega arith in
    rw (code-digit_char d h, same) (ground arith)

parse_from-format_onto :
    (fuel n : ℕ) (rest : String)
    → n < fuel
    → parse_from 0 (format_onto fuel n rest) ≡ parse_from n rest
unfolding format_onto
parse_from-format_onto zero n rest h = absurd (omega arith)
parse_from-format_onto (suc fuel) n rest h = elim (Bool-cases (ltb n 10)) [
  | inl e ↦
      let same : 0 * 10 + n ≡ n = omega arith in
      rw e (parse_from-digit 0 n rest (ground arith) ∙ ap (λ k. parse_from k rest) same)
  | inr e ↦
      let same : n / 10 * 10 + n % 10 ≡ n = omega arith in
      rw e (
        parse_from-format_onto fuel (n / 10) (String.◌∷◌ (digit_char (n % 10)) rest) (ground arith)
        ∙ parse_from-digit (n / 10) (n % 10) rest (omega arith)
        ∙ ap (λ k. parse_from k rest) same)
]

-- A text of digits begins with a digit.
format_onto-head :
    (fuel n : ℕ) (rest : String)
    → (d : ℕ) × (s : String) × (d < 10)
      × (format_onto (suc fuel) n rest ≡ String.◌∷◌ (digit_char d) s)
unfolding format_onto
format_onto-head zero n rest = elim (Bool-cases (ltb n 10)) [
  | inl e ↦ (n, rest, ground arith, rw e)
  | inr e ↦ (n % 10, rest, omega arith, rw e)
]
format_onto-head (suc fuel) n rest = elim (Bool-cases (ltb n 10)) [
  | inl e ↦ (n, rest, ground arith, rw e)
  | inr e ↦ rw e (format_onto-head fuel (n / 10) (String.◌∷◌ (digit_char (n % 10)) rest))
]

parse_nat_of_digits :
    (t : String) (d : ℕ) (s : String)
    → t ≡ String.◌∷◌ (digit_char d) s
    → parse_nat t ≡ parse_from 0 t
unfolding parse_nat
parse_nat_of_digits t d s e = subst (λ u. parse_nat u ≡ parse_from 0 u) (sym e) refl

parse_int_of_digits :
    (t : String) (d : ℕ) (s : String)
    → d < 10
    → t ≡ String.◌∷◌ (digit_char d) s
    → parse_int t ≡ to_pos (parse_nat t)
unfolding parse_int
parse_int_of_digits t d s small e =
    subst (λ u. parse_int u ≡ to_pos (parse_nat u)) (sym e)
      (rw (code-digit_char d small) (ground arith))

parse_nat-format_nat : (n : ℕ) → parse_nat (format_nat n) ≡ some n
unfolding format_nat parse_from
parse_nat-format_nat n =
    let (d, s, small, same) = format_onto-head n n "" in
    parse_nat_of_digits (format_onto (suc n) n "") d s same
    ∙ parse_from-format_onto (suc n) n "" (omega arith)

-- A number that is printed and read again is the same, in the range of an int64.
pub parse_int-format_int : (z : ℤ) → IsInt64 z → parse_int (format_int z) ≡ some z
unfolding format_int parse_int
parse_int-format_int (pos n) h =
    let (d, s, small, same) = format_onto-head n n "" in
    parse_int_of_digits (format_nat n) d s small (unfold format_nat in same)
    ∙ ap to_pos (parse_nat-format_nat n)
    ∙ ground arith
parse_int-format_int (negsuc n) h = rw (parse_nat-format_nat (suc n)) (ground arith)
