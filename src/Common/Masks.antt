-- ===== src/Common/Masks.antt =====
-- The `&` of a word with a mask, by its binary digits.
use Prim.Native.Nat.{
  ℕ, zero, suc, ◌+◌, ◌*◌, ◌/◌, ◌%◌, ◌≤◌, ◌<◌, ◌^◌, min, bit_and, digits, bit_and-bitwise,
}
use mathlib.Core.Path.{◌≡◌, refl, sym, ap, ◌∙◌}
use native.Mathlib.Omega.{arith}

both_stop :
    (few many mask : ℕ) → digits (λ b. zero) min few 0 mask ≡ digits (λ b. zero) min many 0 mask
both_stop zero zero mask = refl
both_stop zero (suc many) mask = refl
both_stop (suc few) zero mask = refl
both_stop (suc few) (suc many) mask = refl

-- Where there is fuel for every digit, more of it changes nothing.
fuel_any :
    (n m a b : ℕ) → a ≤ n → a ≤ m → digits (λ b. zero) min n a b ≡ digits (λ b. zero) min m a b
fuel_any few many zero mask lo hi = both_stop few many mask
fuel_any zero many (suc a) mask lo hi = absurd (omega arith)
fuel_any (suc few) zero (suc a) mask lo hi = absurd (omega arith)
fuel_any (suc few) (suc many) (suc a) mask lo hi =
    let rest = fuel_any few many (suc a / 2) (mask / 2) (omega arith) (omega arith) in
    omega (arith, rest)

-- The lowest digit, and the digits above it.
pub lowest_digit : (a b : ℕ) → bit_and a b ≡ bit_and (a / 2) (b / 2) * 2 + min (a % 2) (b % 2)
lowest_digit zero b = omega (arith, bit_and-bitwise 0 b, bit_and-bitwise 0 (b / 2))
lowest_digit (suc a) b = omega (
  arith,
  bit_and-bitwise (suc a) b,
  bit_and-bitwise (suc a / 2) (b / 2),
  fuel_any a (suc a / 2) (suc a / 2) (b / 2) (omega arith) (omega arith),
)

-- 2 ^ k, and the mask of k ones.
abbrev pub power : ℕ → ℕ
power zero = 1
power (suc k) = power k * 2

abbrev pub ones : ℕ → ℕ
ones zero = 0
ones (suc k) = ones k * 2 + 1

ones-small : (k a : ℕ) → a < power k → bit_and a (ones k) ≡ a
ones-small zero a lt =
    let none : a ≡ 0 = omega (arith, lt) in
    ap (λ x. bit_and x 0) none ∙ bit_and-bitwise 0 0 ∙ sym none
ones-small (suc k) a lt =
    let below : (ones k * 2 + 1) / 2 ≡ ones k = omega arith in
    let here : bit_and (a / 2) (ones k) ≡ a / 2 = ones-small k (a / 2) (omega (arith, lt)) in
    omega (arith, lowest_digit a (ones k * 2 + 1), ap (bit_and (a / 2)) below ∙ here)

-- A mask whose lowest digits are 0 keeps the digits above them.
abbrev halved : ℕ → ℕ → ℕ
halved zero a = a
halved (suc k) a = halved k (a / 2)

high_digits : (k a c : ℕ) → bit_and a (c * power k) ≡ bit_and (halved k a) c * power k
high_digits zero a c =
    let same : c * 1 ≡ c = omega arith in
    let value : bit_and a (c * 1) ≡ bit_and a c = ap (bit_and a) same in omega (arith, value)
high_digits (suc k) a c =
    let low : c * (power k * 2) % 2 ≡ 0 = omega arith in
    let half : c * (power k * 2) / 2 ≡ c * power k = omega arith in
    omega (
      arith,
      lowest_digit a (c * (power k * 2)),
      low,
      ap (bit_and (a / 2)) half ∙ high_digits k (a / 2) c,
    )

-- The mask of a page's address.
pub bit_and-page : (a : ℕ) → a < 2 ^ 32 → bit_and a 0xfffff000 ≡ a / 4096 * 4096
bit_and-page a lt =
    let few : a / 4096 < power 20 = omega (arith, lt) in
    let page : halved 12 a ≡ a / 4096 = omega arith in
    high_digits 12 a (ones 20)
    ∙ ap (λ x. bit_and x (ones 20) * 4096) page
    ∙ ap (λ x. x * 4096) (ones-small 20 (a / 4096) few)

-- The lowest digits of a number, as a number.
abbrev lowest : ℕ → ℕ → ℕ
lowest zero a = 0
lowest (suc k) a = lowest k (a / 2) * 2 + a % 2

mask_none : (n a : ℕ) → a ≤ n → bit_and a 0 ≡ 0
mask_none zero a le =
    let none : a ≡ 0 = omega (arith, le) in ap (λ x. bit_and x 0) none ∙ bit_and-bitwise 0 0
mask_none (suc n) zero le = bit_and-bitwise 0 0
mask_none (suc n) (suc a) le =
    omega (arith, lowest_digit (suc a) 0, mask_none n (suc a / 2) (omega (arith, le)))

bit_and-ones : (k a : ℕ) → bit_and a (ones k) ≡ lowest k a
bit_and-ones zero a = mask_none a a (omega arith)
bit_and-ones (suc k) a =
    let below : (ones k * 2 + 1) / 2 ≡ ones k = omega arith in
    omega
      (arith, lowest_digit a (ones k * 2 + 1), ap (bit_and (a / 2)) below ∙ bit_and-ones k (a / 2))

pub bit_and-half : (a : ℕ) → bit_and a 0xffff ≡ a % 65536
bit_and-half a = bit_and-ones 16 a ∙ omega arith

-- The four digits above the lowest sixteen, the eight above them, and the high half of a word.
pub bit_and-nibble : (a : ℕ) → bit_and a 0xf0000 ≡ a / 65536 % 16 * 65536
bit_and-nibble a =
    let high : halved 16 a ≡ a / 65536 = omega arith in
    let low : lowest 4 (a / 65536) ≡ a / 65536 % 16 = omega arith in
    high_digits 16 a (ones 4)
    ∙ ap (λ x. bit_and x (ones 4) * 65536) high
    ∙ ap (λ x. x * 65536) (bit_and-ones 4 (a / 65536) ∙ low)

pub bit_and-middle : (a : ℕ) → bit_and a 0xff0000 ≡ a / 65536 % 256 * 65536
bit_and-middle a =
    let high : halved 16 a ≡ a / 65536 = omega arith in
    let low : lowest 8 (a / 65536) ≡ a / 65536 % 256 = omega arith in
    high_digits 16 a (ones 8)
    ∙ ap (λ x. bit_and x (ones 8) * 65536) high
    ∙ ap (λ x. x * 65536) (bit_and-ones 8 (a / 65536) ∙ low)

pub bit_and-upper : (a : ℕ) → a < 2 ^ 32 → bit_and a 0xffff0000 ≡ a / 65536 * 65536
bit_and-upper a lt =
    let few : a / 65536 < power 16 = omega (arith, lt) in
    let high : halved 16 a ≡ a / 65536 = omega arith in
    high_digits 16 a (ones 16)
    ∙ ap (λ x. bit_and x (ones 16) * 65536) high
    ∙ ap (λ x. x * 65536) (ones-small 16 (a / 65536) few)
