-- ===== src/Prelude/Bits.antt =====
-- `&`, `|` and `!` of words, field by field.
use Prim.Native.Nat.{
  ℕ, zero, suc, ◌+◌, ◌-◌, ◌*◌, ◌/◌, ◌%◌, ◌^◌, ◌≤◌, ◌<◌, min, max, bit_and, bit_or, digits, bitwise,
  bit_and-bitwise, bit_or-bitwise,
}
use native.Mathlib.Nat.{pow-suc}
use mathlib.Core.Path.{◌≡◌, refl, sym, ap, ◌∙◌}
use native.Mathlib.Omega.{arith}

-- `!x` of a `u32`
abbrev pub not_word : ℕ → ℕ
not_word x = 2 ^ 32 - 1 - x

-- Both operations on digits: what the native ones run for the lowest digit, whatever fuel is left over.
module _ (rest : ℕ → ℕ) (op : ℕ → ℕ → ℕ) where
  no_digits : (fuel y : ℕ) → digits rest op fuel 0 y ≡ rest y
  no_digits zero y = refl
  no_digits (suc fuel) y = refl

  suc-sum : (fuel extra : ℕ) → suc fuel + extra ≡ suc (fuel + extra)
  suc-sum fuel extra = omega arith

  more_fuel :
      (fuel extra x y : ℕ) → x ≤ fuel → digits rest op (fuel + extra) x y ≡ digits rest op fuel x y
  more_fuel fuel extra zero y le = no_digits (fuel + extra) y ∙ sym (no_digits fuel y)
  more_fuel zero extra (suc x) y le = absurd (omega arith)
  more_fuel (suc fuel) extra (suc x) y le =
      ap (λ n. digits rest op n (suc x) y) (suc-sum fuel extra)
      ∙ ap (λ high. high * 2 + op (suc x % 2) (y % 2))
          (more_fuel fuel extra (suc x / 2) (y / 2) (omega arith))

  lowest_digit :
      ((y : ℕ) → rest y ≡ rest (y / 2) * 2 + op 0 (y % 2))
      → (x y : ℕ) → bitwise rest op x y ≡ bitwise rest op (x / 2) (y / 2) * 2 + op (x % 2) (y % 2)
  lowest_digit none zero y = none y
  lowest_digit none (suc x) y =
      ap (λ high. high * 2 + op (suc x % 2) (y % 2))
        (ap (λ fuel. digits rest op fuel (suc x / 2) (y / 2)) split
          ∙ more_fuel (suc x / 2) (x - suc x / 2) (suc x / 2) (y / 2) (omega arith))
    where
      split : x ≡ suc x / 2 + (x - suc x / 2)
      split = omega arith

bit_and_step : (a b : ℕ) → bit_and a b ≡ bit_and (a / 2) (b / 2) * 2 + min (a % 2) (b % 2)
bit_and_step a b = simp bit_and-bitwise (lowest_digit (λ y. 0) min (λ y. omega arith) a b)

bit_or_step : (a b : ℕ) → bit_or a b ≡ bit_or (a / 2) (b / 2) * 2 + max (a % 2) (b % 2)
bit_or_step a b = simp bit_or-bitwise (lowest_digit (λ y. y) max (λ y. omega arith) a b)

shifted_again : (k x : ℕ) → x * 2 ^ suc k ≡ x * 2 ^ k * 2
shifted_again k x = rw (pow-suc 2 k) (omega arith)

-- Words cut at bit `k` are combined part by part.
pub bit_and_split :
    (k q r s t : ℕ)
    → r < 2 ^ k
    → t < 2 ^ k
    → bit_and (q * 2 ^ k + r) (s * 2 ^ k + t) ≡ bit_and q s * 2 ^ k + bit_and r t
bit_and_split zero q zero s zero hr ht = ground (arith, bit_and_step 0 0)
bit_and_split zero q (suc r) s t hr ht = absurd (omega arith)
bit_and_split zero q zero s (suc t) hr ht = absurd (omega arith)
bit_and_split (suc k) q r s t hr ht = ground (
  arith,
  bit_and_step (q * 2 ^ suc k + r) (s * 2 ^ suc k + t),
  bit_and_step r t,
  shifted_again k q,
  shifted_again k s,
  shifted_again k (bit_and q s),
  pow-suc 2 k,
  bit_and_split k q (r / 2) s (t / 2),
)

pub bit_or_split :
    (k q r s t : ℕ)
    → r < 2 ^ k
    → t < 2 ^ k
    → bit_or (q * 2 ^ k + r) (s * 2 ^ k + t) ≡ bit_or q s * 2 ^ k + bit_or r t
bit_or_split zero q zero s zero hr ht = ground (arith, bit_or_step 0 0)
bit_or_split zero q (suc r) s t hr ht = absurd (omega arith)
bit_or_split zero q zero s (suc t) hr ht = absurd (omega arith)
bit_or_split (suc k) q r s t hr ht = ground (
  arith,
  bit_or_step (q * 2 ^ suc k + r) (s * 2 ^ suc k + t),
  bit_or_step r t,
  shifted_again k q,
  shifted_again k s,
  shifted_again k (bit_or q s),
  pow-suc 2 k,
  bit_or_split k q (r / 2) s (t / 2),
)

bit_and-zero : (k a : ℕ) → a < 2 ^ k → bit_and a 0 ≡ 0
bit_and-zero zero zero h = bit_and-bitwise 0 0
bit_and-zero zero (suc a) h = absurd (omega arith)
bit_and-zero (suc k) a h = ground (arith, bit_and_step a 0, pow-suc 2 k, bit_and-zero k (a / 2))

bit_and_all : (k a : ℕ) → a < 2 ^ k → bit_and a (2 ^ k - 1) ≡ a
bit_and_all zero zero h = bit_and-bitwise 0 0
bit_and_all zero (suc a) h = absurd (omega arith)
bit_and_all (suc k) a h =
    ground (arith, bit_and_step a (2 ^ suc k - 1), pow-suc 2 k, bit_and_all k (a / 2))

-- A mask of `w` ones at bit `k`, on a word of `k + w + u` bits.
pub bit_and_field :
    (k w : ℕ) (a b c : ℕ)
    → a < 2 ^ 64
    → b < 2 ^ w
    → c < 2 ^ k
    → bit_and ((a * 2 ^ w + b) * 2 ^ k + c) ((2 ^ w - 1) * 2 ^ k) ≡ b * 2 ^ k
bit_and_field k w a b c ha hb hc = ground (
  arith,
  bit_and_split k (a * 2 ^ w + b) c (2 ^ w - 1) 0,
  bit_and_split w a b 0 (2 ^ w - 1),
  bit_and_all w b,
  bit_and-zero 64 a,
  bit_and-zero k c,
)

-- Words whose ones lie on both sides of bit `k` are added by `|`.
bit_or-zero : (k a : ℕ) → a < 2 ^ k → (bit_or a 0 ≡ a) × (bit_or 0 a ≡ a)
bit_or-zero zero zero h = (bit_or-bitwise 0 0, bit_or-bitwise 0 0)
bit_or-zero zero (suc a) h = absurd (omega arith)
bit_or-zero (suc k) a h =
    ground (arith, bit_or_step a 0, bit_or_step 0 a, pow-suc 2 k, bit_or-zero k (a / 2))

-- `|` of a word whose bits from `k` on have a zero below bit `w` with a field of `w` bits.
pub bit_or_field :
    (k w : ℕ) (a b c : ℕ)
    → a < 2 ^ 64
    → b < 2 ^ w
    → c < 2 ^ k
    → bit_or (a * 2 ^ w * 2 ^ k + c) (b * 2 ^ k) ≡ (a * 2 ^ w + b) * 2 ^ k + c
bit_or_field k w a b c ha hb hc = ground (
  arith,
  bit_or_split k (a * 2 ^ w) c b 0,
  bit_or_split w a 0 0 b,
  bit_or-zero 64 a,
  bit_or-zero w b,
  bit_or-zero k c,
)

-- `|` with the one digit at bit `k`.
pub bit_or_digit :
    (k q s r : ℕ)
    → q < 2 ^ 64
    → s < 2
    → r < 2 ^ k
    → bit_or ((q * 2 + s) * 2 ^ k + r) (1 * 2 ^ k + 0) ≡ (q * 2 + 1) * 2 ^ k + r
bit_or_digit k q s r hq hs hr = ground (
  arith,
  bit_or_split k (q * 2 + s) r 1 0,
  bit_or_step (q * 2 + s) 1,
  bit_or-zero 64 q,
  bit_or-zero k r,
)
