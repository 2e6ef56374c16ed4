-- ===== src/Base/Bits.antt =====
-- Bit operations at variables: each by its lowest digit, and what follows by strong induction.
use mathlib.Core.WellFounded.{Acc, WellFounded, induction}
use native.Mathlib.Nat.{pow-suc, div-add-mod', mod-lt, one-le-pow}
use Prim.Native.Nat.{
  ℕ, zero, suc, ◌+◌, ◌-◌, ◌*◌, ◌/◌, ◌%◌, ◌^◌, ◌≤◌, ◌<◌, min, max, bit_and, bit_or, bit_xor, digits,
  bitwise, differ, bit_xor-bitwise, bit_or-bitwise, bit_and-bitwise,
}
use mathlib.Core.Path.{◌≡◌, refl, ap, ◌∙◌, sym}
use native.Mathlib.Omega.{arith}

Acc_upto : (bound n : ℕ) → n < bound → Acc ◌<◌ n
Acc_upto zero n h = absurd (omega arith)
Acc_upto (suc bound) n h = Acc.intro n (λ k below. Acc_upto bound k (omega arith))

pub below_wf : WellFounded ◌<◌
below_wf = record { apply = λ n. Acc_upto (suc n) n (omega arith) }

-- Induction along halving.
pub halving {ℓ} : (P : ℕ → Type ℓ) → P 0 → ((n : ℕ) → P (suc n / 2) → P (suc n)) → (n : ℕ) → P n
halving P base step n = induction below_wf {C = P} n go
  where
    go : (k : ℕ) → ((j : ℕ) → j < k → P j) → P k
    go zero ih = base
    go (suc k) ih = step k (ih (suc k / 2) (omega arith))

-- The recursion of the three operations, on any two functions of digits.
module _ (last : ℕ → ℕ) (pair : ℕ → ℕ → ℕ) where
  -- One digit more than there are changes nothing.
  spare_digit :
      (count x y : ℕ) → x ≤ count → digits last pair (suc count) x y ≡ digits last pair count x y
  spare_digit zero zero y room = refl
  spare_digit zero (suc x) y room = absurd (omega arith)
  spare_digit (suc count) zero y room = refl
  spare_digit (suc count) (suc x) y room =
      ap (λ t. t * 2 + pair (suc x % 2) (y % 2))
        (spare_digit count (suc x / 2) (y / 2) (omega arith))

  spare_digits :
      (k count x y : ℕ) → count ≡ k + x → digits last pair count x y ≡ digits last pair x x y
  spare_digits zero count x y e = ap (λ n. digits last pair n x y) (omega arith)
  spare_digits (suc k) zero x y e = absurd (omega arith)
  spare_digits (suc k) (suc count) x y e =
      spare_digit count x y (omega arith) ∙ spare_digits k count x y (omega arith)

  -- The lowest digit of the result comes from the lowest digits of the operands.
  lowest_digit :
      ((y : ℕ) → last y ≡ last (y / 2) * 2 + pair 0 (y % 2))
      → (x y : ℕ)
      → bitwise last pair x y ≡ bitwise last pair (x / 2) (y / 2) * 2 + pair (x % 2) (y % 2)
  lowest_digit exhausted zero y = exhausted y
  lowest_digit exhausted (suc x) y =
      ap (λ t. t * 2 + pair (suc x % 2) (y % 2))
        (spare_digits (x - suc x / 2) x (suc x / 2) (y / 2) (omega arith))

differ_digits : (x y : ℕ) → x < 2 → y < 2 → differ x y ≡ (x + y) % 2
differ_digits zero y p q = omega arith
differ_digits (suc zero) zero p q = refl
differ_digits (suc zero) (suc zero) p q = refl
differ_digits (suc zero) (suc (suc y)) p q = absurd (omega arith)
differ_digits (suc (suc x)) y p q = absurd (omega arith)

zero-bit_xor : (b : ℕ) → bit_xor 0 b ≡ b
zero-bit_xor b = bit_xor-bitwise 0 b

zero-bit_and : (b : ℕ) → bit_and 0 b ≡ 0
zero-bit_and b = bit_and-bitwise 0 b

zero-bit_or : (b : ℕ) → bit_or 0 b ≡ b
zero-bit_or b = bit_or-bitwise 0 b

last_digit : (y : ℕ) → y ≡ y / 2 * 2 + y % 2
last_digit y = omega arith

-- The lowest digit of an exclusive or, and the rest.
pub bit_xor_step : (a b : ℕ) → bit_xor a b ≡ bit_xor (a / 2) (b / 2) * 2 + (a % 2 + b % 2) % 2
bit_xor_step a b =
    bit_xor-bitwise a b
    ∙ lowest_digit (λ y. y) differ last_digit a b
    ∙ ap (λ t. t * 2 + differ (a % 2) (b % 2)) (sym (bit_xor-bitwise (a / 2) (b / 2)))
    ∙ ap (λ t. bit_xor (a / 2) (b / 2) * 2 + t)
        (differ_digits (a % 2) (b % 2) (omega arith) (omega arith))

pub bit_and_step : (a b : ℕ) → bit_and a b ≡ bit_and (a / 2) (b / 2) * 2 + min (a % 2) (b % 2)
bit_and_step a b =
    bit_and-bitwise a b
    ∙ lowest_digit (λ y. 0) min (λ y. omega arith) a b
    ∙ ap (λ t. t * 2 + min (a % 2) (b % 2)) (sym (bit_and-bitwise (a / 2) (b / 2)))

pub bit_or_step : (a b : ℕ) → bit_or a b ≡ bit_or (a / 2) (b / 2) * 2 + max (a % 2) (b % 2)
bit_or_step a b =
    bit_or-bitwise a b
    ∙ lowest_digit (λ y. y) max (λ y. omega arith) a b
    ∙ ap (λ t. t * 2 + max (a % 2) (b % 2)) (sym (bit_or-bitwise (a / 2) (b / 2)))

pub half-bit_xor : (a b : ℕ) → bit_xor a b / 2 ≡ bit_xor (a / 2) (b / 2)
half-bit_xor a b = omega (arith, bit_xor_step a b)

pub parity-bit_xor : (a b : ℕ) → bit_xor a b % 2 ≡ (a % 2 + b % 2) % 2
parity-bit_xor a b = omega (arith, bit_xor_step a b)

pub bit_and-zero : (a : ℕ) → bit_and a 0 ≡ 0
bit_and-zero =
    halving (λ a. bit_and a 0 ≡ 0) (zero-bit_and 0) (λ n ih. omega (arith, bit_and_step (suc n) 0))

pub bit_or-zero : (a : ℕ) → bit_or a 0 ≡ a
bit_or-zero =
    halving (λ a. bit_or a 0 ≡ a) (zero-bit_or 0) (λ n ih. omega (arith, bit_or_step (suc n) 0))

-- Numbers with equal lowest digits and equal rests are equal.
pub digits_eq : (a b : ℕ) → a / 2 ≡ b / 2 → a % 2 ≡ b % 2 → a ≡ b
digits_eq a b p q = omega arith

pub bit_xor-zero : (a : ℕ) → bit_xor a 0 ≡ a
bit_xor-zero =
    halving (λ a. bit_xor a 0 ≡ a) (zero-bit_xor 0) (λ n ih. omega (arith, bit_xor_step (suc n) 0))

pub bit_xor_self : (a : ℕ) → bit_xor a a ≡ 0
bit_xor_self =
    halving (λ a. bit_xor a a ≡ 0) (zero-bit_xor 0)
      λ n ih. omega (arith, bit_xor_step (suc n) (suc n))

pub bit_xor_comm : (a b : ℕ) → bit_xor a b ≡ bit_xor b a
bit_xor_comm =
    halving (λ a. (b : ℕ) → bit_xor a b ≡ bit_xor b a) (λ b. zero-bit_xor b ∙ sym (bit_xor-zero b))
      λ n ih b. omega (arith, bit_xor_step (suc n) b, bit_xor_step b (suc n), ih (b / 2))

pub bit_xor_assoc : (a b c : ℕ) → bit_xor (bit_xor a b) c ≡ bit_xor a (bit_xor b c)
bit_xor_assoc =
    halving (λ a. (b c : ℕ) → bit_xor (bit_xor a b) c ≡ bit_xor a (bit_xor b c))
      (λ b c. ap (λ t. bit_xor t c) (zero-bit_xor b) ∙ sym (zero-bit_xor (bit_xor b c)))
      λ n ih b c.
        digits_eq _ _
          (half-bit_xor (bit_xor (suc n) b) c
            ∙ ap (λ t. bit_xor t (c / 2)) (half-bit_xor (suc n) b)
            ∙ ih (b / 2) (c / 2)
            ∙ sym (ap (bit_xor (suc n / 2)) (half-bit_xor b c))
            ∙ sym (half-bit_xor (suc n) (bit_xor b c)))
          (omega (
            arith,
            parity-bit_xor (bit_xor (suc n) b) c,
            parity-bit_xor (suc n) b,
            parity-bit_xor (suc n) (bit_xor b c),
            parity-bit_xor b c,
          ))

-- The last two operands of a chain may be swapped.
pub bit_xor_right_comm : (a b c : ℕ) → bit_xor (bit_xor a b) c ≡ bit_xor (bit_xor a c) b
bit_xor_right_comm a b c =
    bit_xor_assoc a b c ∙ ap (bit_xor a) (bit_xor_comm b c) ∙ sym (bit_xor_assoc a c b)

pub bit_xor-bit_xor_self : (a b : ℕ) → bit_xor (bit_xor a b) b ≡ a
bit_xor-bit_xor_self a b = bit_xor_assoc a b b ∙ ap (bit_xor a) (bit_xor_self b) ∙ bit_xor-zero a

-- Operands of `k` digits give `k` digits.
pub bit_xor-lt : (k a b : ℕ) → a < 2 ^ k → b < 2 ^ k → bit_xor a b < 2 ^ k
bit_xor-lt zero zero zero p q = omega (arith, zero-bit_xor 0)
bit_xor-lt zero zero (suc b) p q = absurd (omega arith)
bit_xor-lt zero (suc a) b p q = absurd (omega arith)
bit_xor-lt (suc k) a b p q = omega (
  arith,
  pow-suc 2 k,
  bit_xor_step a b,
  bit_xor-lt k (a / 2) (b / 2) (omega (arith, pow-suc 2 k)) (omega (arith, pow-suc 2 k)),
)

pub mul-pow-suc : (q k : ℕ) → q * 2 ^ suc k ≡ 2 * (q * 2 ^ k)
mul-pow-suc q k = omega (arith, ap (λ (t : ℕ). q * t) (pow-suc 2 k))

pub half-shift : (u j : ℕ) → u * 2 ^ suc j / 2 ≡ u * 2 ^ j
half-shift u j = omega (arith, mul-pow-suc u j)

-- Fields that do not overlap add up.
pub bit_xor_fields : (k q r : ℕ) → r < 2 ^ k → bit_xor r (q * 2 ^ k) ≡ q * 2 ^ k + r
bit_xor_fields zero q zero p = omega (arith, zero-bit_xor (q * 1))
bit_xor_fields zero q (suc r) p = absurd (omega arith)
bit_xor_fields (suc k) q r p = omega (
  arith,
  mul-pow-suc q k,
  bit_xor_step r (q * 2 ^ suc k),
  ap (bit_xor (r / 2)) (half-shift q k),
  bit_xor_fields k q (r / 2) (omega (arith, pow-suc 2 k)),
)

-- A mask of the `k` lowest digits keeps the low field.
pub bit_and_low : (k q r m : ℕ) → m + 1 ≡ 2 ^ k → r < 2 ^ k → bit_and (q * 2 ^ k + r) m ≡ r
bit_and_low zero q r zero e p = omega (arith, bit_and-zero (q * 1 + r))
bit_and_low zero q r (suc m) e p = absurd (omega arith)
bit_and_low (suc k) q r m e p = omega (
  arith,
  mul-pow-suc q k,
  pow-suc 2 k,
  bit_and_step (q * 2 ^ suc k + r) m,
  ap (λ (t : ℕ). bit_and t (m / 2)) (upper k (omega (arith, pow-suc 2 k))),
  bit_and_low k q (r / 2) (m / 2) (omega (arith, pow-suc 2 k)) (omega (arith, pow-suc 2 k)),
)
  where
    upper : (j : ℕ) → 0 < 2 ^ j → (q * 2 ^ suc j + r) / 2 ≡ q * 2 ^ j + r / 2
    upper j h = omega (arith, mul-pow-suc q j)

-- A mask of one digit tests that digit.
pub bit_and_digit : (k q r : ℕ) → r < 2 ^ k → bit_and (q * 2 ^ k + r) (2 ^ k) ≡ q % 2 * 2 ^ k
bit_and_digit zero q zero p =
    omega (arith, bit_and_step (q * 1 + 0) 1, bit_and-zero ((q * 1 + 0) / 2))
bit_and_digit zero q (suc r) p = absurd (omega arith)
bit_and_digit (suc k) q r p = omega (
  arith,
  mul-pow-suc q k,
  mul-pow-suc (q % 2) k,
  pow-suc 2 k,
  bit_and_step (q * 2 ^ suc k + r) (2 ^ suc k),
  ap (λ (t : ℕ). bit_and t (2 ^ suc k / 2)) (upper k),
  ap (bit_and (q * 2 ^ k + r / 2)) (lower k),
  bit_and_digit k q (r / 2) (omega (arith, pow-suc 2 k)),
)
  where
    upper : (j : ℕ) → (q * 2 ^ suc j + r) / 2 ≡ q * 2 ^ j + r / 2
    upper j = omega (arith, mul-pow-suc q j)

    lower : (j : ℕ) → 2 ^ suc j / 2 ≡ 2 ^ j
    lower j = omega (arith, pow-suc 2 j)

-- Fields that do not overlap are joined by `or` as by a sum.
pub bit_or_fields : (k q r : ℕ) → r < 2 ^ k → bit_or r (q * 2 ^ k) ≡ q * 2 ^ k + r
bit_or_fields zero q zero p = omega (arith, zero-bit_or (q * 1))
bit_or_fields zero q (suc r) p = absurd (omega arith)
bit_or_fields (suc k) q r p = omega (
  arith,
  mul-pow-suc q k,
  bit_or_step r (q * 2 ^ suc k),
  ap (bit_or (r / 2)) (half-shift q k),
  bit_or_fields k q (r / 2) (omega (arith, pow-suc 2 k)),
)

-- The same for a number that is not given by its fields.
pub bit_and_mask : (k a m : ℕ) → m + 1 ≡ 2 ^ k → bit_and a m ≡ a % 2 ^ k
bit_and_mask k a m e =
    ap (λ t. bit_and t m) (sym (div-add-mod' a (2 ^ k)))
    ∙ bit_and_low k (a / 2 ^ k) (a % 2 ^ k) m e (mod-lt a (one-le-pow k 2 (omega arith)))

pub bit_and_test : (k a : ℕ) → bit_and a (2 ^ k) ≡ a / 2 ^ k % 2 * 2 ^ k
bit_and_test k a =
    ap (λ t. bit_and t (2 ^ k)) (sym (div-add-mod' a (2 ^ k)))
    ∙ bit_and_digit k (a / 2 ^ k) (a % 2 ^ k) (mod-lt a (one-le-pow k 2 (omega arith)))
