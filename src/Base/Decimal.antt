-- ===== src/Base/Decimal.antt =====
-- Numbers as decimal text: `n.toString()` and `parseInt(s, 10)` of JavaScript on integers.
use Prim.Native.Nat.{ℕ, zero, suc, ◌+◌, ◌-◌, ◌*◌, ◌/◌, ◌%◌, ◌≤◌, ◌<◌, compare, Ordering}
use Prim.Native.Char.{Char, code}
use Prim.Native.String.{String}
use mathlib.Core.Path.{◌≡◌, refl, ap, ◌∙◌}
use mathlib.Core.Bool.{Bool, true, false, ◌||◌, cond, false≢true}
use mathlib.Core.Logic.{◌⊎◌, inl, inr}
use mathlib.Core.Option
use mathlib.Core.Option.{Option, none, some}
use native.Mathlib.Omega.{arith}
use tezos_api_gateway.Base.Int.{ℤ, pos, negsuc}

abbrev between : ℕ → ℕ → ℕ → Bool
between lo hi c = elim (compare c lo) [
  | Ordering.lt ↦ false
  | _ ↦ elim (compare c hi) [ Ordering.gt ↦ false | _ ↦ true ]
]

-- The digit of a number below ten.
digit : ℕ → Char
digit zero = "0"
digit (suc zero) = "1"
digit (suc (suc zero)) = "2"
digit (suc (suc (suc zero))) = "3"
digit (suc (suc (suc (suc zero)))) = "4"
digit (suc (suc (suc (suc (suc zero))))) = "5"
digit (suc (suc (suc (suc (suc (suc zero)))))) = "6"
digit (suc (suc (suc (suc (suc (suc (suc zero))))))) = "7"
digit (suc (suc (suc (suc (suc (suc (suc (suc zero)))))))) = "8"
digit _ = "9"

-- The digits of `n` in front of `rest`; `n + 1` rounds are enough.
emit : ℕ → ℕ → String → String
emit zero n rest = rest
emit (suc fuel) n rest =
    let more = emit fuel (n / 10) (String.◌∷◌ (digit (n % 10)) rest) in
    cond (between 0 9 n) (String.◌∷◌ (digit n) rest) more

show_ℕ : ℕ → String
unfolding emit digit
show_ℕ n = emit (suc n) n ""

-- `n.toString()`
unfoldable pub to_string : ℤ → String
unfolding show_ℕ
to_string (pos n) = show_ℕ n
to_string (negsuc n) = String.◌∷◌ "-" (show_ℕ (suc n))

is_digit : Char → Bool
is_digit c = between b'0' b'9' (code c)

-- White space and line terminators of ECMAScript.
abbrev at : Char → ℕ → Bool
at c n = between n n (code c)

is_space : Char → Bool
is_space c =
    between 9 13 (code c)
    || at c 32
    || at c 160
    || at c 0x1680
    || between 0x2000 0x200a (code c)
    || between 0x2028 0x2029 (code c)
    || at c 0x202f
    || at c 0x205f
    || at c 0x3000
    || at c 0xfeff

skip_space : String → String
skip_space String.[] = ""
skip_space (String.◌∷◌ c s) = cond (is_space c) (skip_space s) (String.◌∷◌ c s)

-- The longest prefix of digits, read after the digits of `acc`.
scan : ℕ → String → ℕ
scan acc String.[] = acc
scan acc (String.◌∷◌ c s) =
    let rest = scan (acc * 10 + (code c - b'0')) s in cond (is_digit c) rest acc

starts_digit : String → Bool
starts_digit String.[] = false
starts_digit (String.◌∷◌ c s) = is_digit c

-- `none` is NaN.
magnitude : String → Option ℕ
magnitude s = cond (starts_digit s) (some (scan 0 s)) none

abbrev negate : ℕ → ℤ
negate zero = pos 0
negate (suc n) = negsuc n

signed : String → Option ℤ
signed String.[] = none
signed (String.◌∷◌ c s) =
    cond (at c b'-') (Option.map negate (magnitude s)) (
      cond (at c b'+') (Option.map pos (magnitude s)) (Option.map pos (magnitude (String.◌∷◌ c s))))

-- `parseInt(s, 10)`
unfoldable pub parse_int : String → Option ℤ
unfolding skip_space signed magnitude starts_digit scan is_digit is_space
parse_int s = signed (skip_space s)

runs :
    (parse_int " -12ab" ≡ some (negsuc 11))
    × (parse_int "x1" ≡ none)
    × (to_string (negsuc 1204) ≡ "-1205")
    × (to_string (pos 90) ≡ "90")
unfolding parse_int to_string
runs = (refl, refl, refl, refl)

below_ten : (n : ℕ) → ((between 0 9 n ≡ true) × (n < 10)) ⊎ ((between 0 9 n ≡ false) × (10 ≤ n))
below_ten n = ground arith

code-digit : (d : ℕ) → d < 10 → code (digit d) ≡ b'0' + d
unfolding digit
code-digit zero h = refl
code-digit (suc zero) h = refl
code-digit (suc (suc zero)) h = refl
code-digit (suc (suc (suc zero))) h = refl
code-digit (suc (suc (suc (suc zero)))) h = refl
code-digit (suc (suc (suc (suc (suc zero))))) h = refl
code-digit (suc (suc (suc (suc (suc (suc zero)))))) h = refl
code-digit (suc (suc (suc (suc (suc (suc (suc zero))))))) h = refl
code-digit (suc (suc (suc (suc (suc (suc (suc (suc zero)))))))) h = refl
code-digit (suc (suc (suc (suc (suc (suc (suc (suc (suc zero))))))))) h = refl
code-digit (suc (suc (suc (suc (suc (suc (suc (suc (suc (suc n)))))))))) h = absurd (omega arith)

between-eq-true : (lo hi c : ℕ) → lo ≤ c → c ≤ hi → between lo hi c ≡ true
between-eq-true lo hi c h k = ground arith

is_digit-digit : (d : ℕ) → d < 10 → is_digit (digit d) ≡ true
unfolding is_digit
is_digit-digit d h =
    rw (code-digit d h) (between-eq-true b'0' b'9' (b'0' + d) (omega arith) (omega arith))

scan-digit :
    (acc d : ℕ) (s : String) → d < 10 → scan acc (String.◌∷◌ (digit d) s) ≡ scan (acc * 10 + d) s
unfolding scan
scan-digit acc d s h =
    rw (is_digit-digit d h, code-digit d h) (ap (λ k. scan (acc * 10 + k) s) (omega arith))

-- A number below ten is its own digit; any other ends in its remainder.
scan-emit : (fuel n : ℕ) (rest : String) → n < fuel → scan 0 (emit fuel n rest) ≡ scan n rest
unfolding emit
scan-emit zero n rest h = absurd (omega arith)
scan-emit (suc fuel) n rest h = elim (below_ten n) [
  | inl (t, lt) ↦ rw t (scan-digit 0 n rest lt ∙ ap (λ k. scan k rest) (omega arith))
  | inr (f, le) ↦ rw f (
      scan-emit fuel (n / 10) (String.◌∷◌ (digit (n % 10)) rest) (omega arith)
      ∙ scan-digit (n / 10) (n % 10) rest (omega arith)
      ∙ ap (λ k. scan k rest) (omega arith))
]

starts_digit-emit : (fuel n : ℕ) (rest : String) → n < fuel → starts_digit (emit fuel n rest) ≡ true
unfolding emit starts_digit
starts_digit-emit zero n rest h = absurd (omega arith)
starts_digit-emit (suc fuel) n rest h = elim (below_ten n) [
  | inl (t, lt) ↦ rw t (is_digit-digit n lt)
  | inr (f, le) ↦ rw f (starts_digit-emit fuel (n / 10) _ (omega arith))
]

magnitude-show_ℕ : (n : ℕ) → magnitude (show_ℕ n) ≡ some n
unfolding magnitude show_ℕ scan
magnitude-show_ℕ n =
    rw (starts_digit-emit (suc n) n "" (omega arith), scan-emit (suc n) n "" (omega arith)) refl

between-bounds : (lo hi c : ℕ) → between lo hi c ≡ true → (lo ≤ c) × (c ≤ hi)
between-bounds lo hi c h = ground arith

between_below : (lo hi c : ℕ) → c < lo → between lo hi c ≡ false
between_below lo hi c h = ground arith

between_above : (lo hi c : ℕ) → hi < c → between lo hi c ≡ false
between_above lo hi c h = ground arith

-- A digit is neither white space nor a sign.
digit_excludes :
    (c : Char)
    → is_digit c ≡ true
    → (is_space c ≡ false) × (at c b'-' ≡ false) × (at c b'+' ≡ false)
unfolding is_digit is_space
digit_excludes c h =
    let (lo, hi) = between-bounds b'0' b'9' (code c) h in
    let above = λ (a b : ℕ) (k : b < b'0'). between_above a b (code c) (omega (arith, k)) in
    let below = λ (a b : ℕ) (k : b'9' < a). between_below a b (code c) (omega (arith, k)) in
    (
      rw
          (
            above 9 13 (omega arith),
            above 32 32 (omega arith),
            below 160 160 (omega arith),
            below 0x1680 0x1680 (omega arith),
            below 0x2000 0x200a (omega arith),
            below 0x2028 0x2029 (omega arith),
            below 0x202f 0x202f (omega arith),
            below 0x205f 0x205f (omega arith),
            below 0x3000 0x3000 (omega arith),
            below 0xfeff 0xfeff (omega arith),
          )
          refl,
      above b'-' b'-' (omega arith),
      above b'+' b'+' (omega arith),
    )

starts_digit-show_ℕ : (n : ℕ) → starts_digit (show_ℕ n) ≡ true
unfolding show_ℕ
starts_digit-show_ℕ n = starts_digit-emit (suc n) n "" (omega arith)

parse_int_of_minus : (s : String) → parse_int (String.◌∷◌ "-" s) ≡ Option.map negate (magnitude s)
unfolding parse_int
parse_int_of_minus s = refl

-- A text that begins with a digit has neither white space nor a sign to skip.
parse_int_of_digit :
    (s : String) → starts_digit s ≡ true → parse_int s ≡ Option.map pos (magnitude s)
unfolding parse_int
parse_int_of_digit String.[] h = absurd (false≢true h)
parse_int_of_digit (String.◌∷◌ c s) h =
    let (space, minus, plus) = digit_excludes c h in rw (space, minus, plus) refl

-- The text of an integer is read back as that integer.
pub parse_int-to_string : (z : ℤ) → parse_int (to_string z) ≡ some z
unfolding to_string
parse_int-to_string (pos n) =
    parse_int_of_digit (show_ℕ n) (starts_digit-show_ℕ n) ∙ ap (Option.map pos) (magnitude-show_ℕ n)
parse_int-to_string (negsuc n) =
    parse_int_of_minus (show_ℕ (suc n)) ∙ ap (Option.map negate) (magnitude-show_ℕ (suc n))
