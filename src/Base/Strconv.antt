-- ===== src/Base/Strconv.antt =====
-- What the code uses of Go's `strconv` and `encoding/hex`. A text is the list of its bytes.
use Prim.Native.Nat.{ℕ, zero, suc, ◌+◌, ◌-◌, ◌*◌, ◌/◌, ◌%◌, ◌^◌, ◌≤◌, ◌<◌}
use mathlib.Core.Path.{◌≡◌, refl, ap, ◌∙◌}
use mathlib.Core.Bool.{◌&&◌}
use mathlib.Core.List.{List, [], ◌∷◌}
use mathlib.Core.Logic.{inl, inr}
use native.Mathlib.Nat.{div-add-mod', mod-lt, pow-suc, le_trans, one-le-pow}
use native.Mathlib.Omega.{arith}
use gpstracker_backend.Base.Tests.{if◌then◌else◌, ltb, leb, ltb→lt, Bool-cases}
use gpstracker_backend.Base.Lists.{length, All}
use gpstracker_backend.Base.Go.{Result, ok, err, bad_number}

pub hex_digit : ℕ → ℕ
hex_digit n = if ltb n 10 then n + b'0' else n - 10 + b'a'

-- `hex.EncodeToString`
unfoldable pub hex : List ℕ → List ℕ
unfolding hex_digit
hex [] = []
hex (b ∷ bs) = hex_digit (b / 16) ∷ hex_digit (b % 16) ∷ hex bs

-- The value of a digit, of either case; a byte that is none has the value 36, above every base.
pub digit_value : ℕ → ℕ
digit_value c =
    if leb b'0' c && leb c b'9'
    then c - b'0'
    else if leb b'a' c && leb c b'z'
    then c - b'a' + 10
    else if leb b'A' c && leb c b'Z'
    then c - b'A' + 10
    else 36

parse_digits : ℕ → List ℕ → ℕ → Result ℕ
parse_digits base [] n = ok n
parse_digits base (c ∷ cs) n =
    let d = digit_value c in
    let rest = parse_digits base cs (n * base + d) in
    if ltb d base && ltb (n * base + d) (2 ^ 64) then rest else err bad_number

-- `strconv.ParseUint(s, base, 64)` at a base from 2 to 36.
unfoldable pub parse_uint : ℕ → List ℕ → Result ℕ
unfolding parse_digits digit_value
parse_uint base [] = err bad_number
parse_uint base (c ∷ cs) = parse_digits base (c ∷ cs) 0

format_digits : ℕ → ℕ → ℕ → List ℕ → List ℕ
unfolding hex_digit
format_digits zero base n acc = acc
format_digits (suc fuel) base n acc =
    let rest = format_digits fuel base (n / base) (hex_digit (n % base) ∷ acc) in
    if ltb n base then hex_digit n ∷ acc else rest

-- `strconv.FormatUint(n, base)`: a uint64 has at most 64 digits.
unfoldable pub format_uint : ℕ → ℕ → List ℕ
unfolding format_digits
format_uint base n = format_digits 64 base n []

pub digit_value-hex_digit : (d : ℕ) → d < 16 → digit_value (hex_digit d) ≡ d
unfolding digit_value hex_digit
digit_value-hex_digit d h = ground arith

parse_digits-hex_digit :
    (base d n : ℕ) (cs : List ℕ)
    → base ≤ 16
    → d < base
    → n * base + d < 2 ^ 64
    → parse_digits base (hex_digit d ∷ cs) n ≡ parse_digits base cs (n * base + d)
unfolding parse_digits
parse_digits-hex_digit base d n cs hb hd hn = ground (arith, digit_value-hex_digit d (omega arith))

halves : (base n : ℕ) → 2 ≤ base → n / base * 2 ≤ n
halves base n h = le_trans (twice (n / base) base h) (omega (arith, div-add-mod' n base))
  where
    twice : (q b : ℕ) → 2 ≤ b → q * 2 ≤ q * b
    twice q b k = grind arith

-- The digits of `n` read back as `n`, and reading goes on behind them.
parse_digits-format_digits :
    (fuel base n : ℕ) (acc : List ℕ)
    → 2 ≤ base
    → base ≤ 16
    → n < 2 ^ 64
    → n < 2 ^ fuel
    → parse_digits base (format_digits fuel base n acc) 0 ≡ parse_digits base acc n
unfolding format_digits
parse_digits-format_digits zero base n acc h2 h16 hn hf = ap (parse_digits base acc) (omega arith)
parse_digits-format_digits (suc fuel) base n acc h2 h16 hn hf = elim (Bool-cases (ltb n base)) [
  | inl last ↦ rw last (
      parse_digits-hex_digit base n 0 acc h16 (ltb→lt n base last) (omega arith)
      ∙ ap (parse_digits base acc) (omega arith))
  | inr more ↦ rw more (
      parse_digits-format_digits fuel base (n / base) (hex_digit (n % base) ∷ acc) h2 h16
        (omega (arith, halves base n h2)) (omega (arith, halves base n h2, pow-suc 2 fuel))
      ∙ parse_digits-hex_digit base (n % base) (n / base) acc h16 (mod-lt n (omega arith))
          (rw (div-add-mod' n base) hn)
      ∙ ap (parse_digits base acc) (div-add-mod' n base))
]

format_digits_nonempty :
    (fuel base n : ℕ) (acc : List ℕ)
    → 0 < fuel + length acc
    → 0 < length (format_digits fuel base n acc)
unfolding format_digits
format_digits_nonempty zero base n acc h = omega arith
format_digits_nonempty (suc fuel) base n acc h =
    ground (
      arith,
      format_digits_nonempty fuel base (n / base) (hex_digit (n % base) ∷ acc) (omega arith),
    )

parse_uint-parse_digits :
    (base : ℕ) (cs : List ℕ) → 0 < length cs → parse_uint base cs ≡ parse_digits base cs 0
unfolding parse_uint
parse_uint-parse_digits base [] h = absurd (omega arith)
parse_uint-parse_digits base (c ∷ cs) h = refl

format_uint_lem : (base n : ℕ) → format_uint base n ≡ format_digits 64 base n []
unfolding format_uint
format_uint_lem base n = refl

-- `ParseUint` reads back every uint64 that `FormatUint` wrote, in base 10 as in base 16.
pub parse_uint-format_uint :
    (base n : ℕ) → 2 ≤ base → base ≤ 16 → n < 2 ^ 64 → parse_uint base (format_uint base n) ≡ ok n
parse_uint-format_uint base n h2 h16 hn =
    ap (parse_uint base) (format_uint_lem base n)
    ∙ parse_uint-parse_digits base (format_digits 64 base n [])
        (format_digits_nonempty 64 base n [] (omega arith))
    ∙ parse_digits-format_digits 64 base n [] h2 h16 hn hn
    ∙ done base n
  where
    done : (b k : ℕ) → parse_digits b [] k ≡ ok k
    done b k = unfold parse_digits in refl

-- The number that packed decimal digits stand for, two to a byte.
abbrev pub bcd_value : ℕ → List ℕ → ℕ
bcd_value n [] = n
bcd_value n (b ∷ bs) = bcd_value ((n * 10 + b / 16) * 10 + b % 16) bs

abbrev pub IsBcd : ℕ → Type 0
IsBcd b = (b / 16 < 10) × (b % 16 < 10)

grow : (n m p limit : ℕ) → m + 1 ≤ (n + 1) * 100 → (n + 1) * (p * 100) ≤ limit → (m + 1) * p ≤ limit
grow n m p limit h k = le_trans (widen m ((n + 1) * 100) p h) (omega arith)
  where
    widen : (x y q : ℕ) → x + 1 ≤ y → (x + 1) * q ≤ y * q
    widen x y q e = grind arith

below_limit : (m p limit : ℕ) → 1 ≤ p → (m + 1) * p ≤ limit → m < limit
below_limit m p limit h k = le_trans (widen m p h) k
  where
    widen : (x q : ℕ) → 1 ≤ q → suc x ≤ (x + 1) * q
    widen x q e = grind arith

parse_digits-hex :
    (bs : List ℕ) (n : ℕ)
    → All IsBcd bs
    → (n + 1) * 100 ^ length bs ≤ 10 ^ 19
    → (parse_digits 10 (hex bs) n ≡ ok (bcd_value n bs)) × ((bcd_value n bs + 1) * 1 ≤ 10 ^ 19)
unfolding hex
parse_digits-hex [] n h hn = (unfold parse_digits in refl, hn)
parse_digits-hex (b ∷ bs) n ((hi, lo), h) hn =
    let m = (n * 10 + b / 16) * 10 + b % 16 in
    let small : (m + 1) * 100 ^ length bs ≤ 10 ^ 19 =
      grow n m (100 ^ length bs) (10 ^ 19) (omega arith) (rw (pow-suc 100 (length bs)) at hn) in
    let fits : m < 10 ^ 19 =
      below_limit m (100 ^ length bs) (10 ^ 19) (one-le-pow (length bs) 100 (omega arith)) small in
    let (same, bound) = parse_digits-hex bs m h small in
    (
      parse_digits-hex_digit 10 (b / 16) n _ (omega arith) hi (omega arith)
          ∙ parse_digits-hex_digit 10 (b % 16) (n * 10 + b / 16) _ (omega arith) lo (omega arith)
          ∙ same,
      bound,
    )

-- Eight packed bytes: the text of their digits reads as the number that they stand for.
pub parse_uint-hex :
    (bs : List ℕ)
    → All IsBcd bs
    → length bs ≡ 8
    → (parse_uint 10 (hex bs) ≡ ok (bcd_value 0 bs)) × (bcd_value 0 bs < 10 ^ 19)
parse_uint-hex [] h hl = absurd (omega arith)
parse_uint-hex (b ∷ bs) h hl =
    let (same, bound) = parse_digits-hex (b ∷ bs) 0 h (rw hl (omega arith)) in
    (parse_uint-parse_digits 10 (hex (b ∷ bs)) (unfold hex in omega arith) ∙ same, omega arith)
