-- ===== src/Base/Bits.antt =====
-- Masks of leading bits on machine words: a right shift, and the bits that a mask keeps.
use vulos_relay.Base.{
  ℕ, zero, suc, ◌+◌, ◌-◌, ◌*◌, ◌/◌, ◌%◌, ◌^◌, ◌≤◌, ◌<◌, min, ◌≡◌, refl, ap, ap₂, sym, ◌∙◌, arith,
}
use Prim.Native.Nat.{bit_and, digits, bit_and-bitwise}
use native.Mathlib.Nat.{
  div-div-eq-div-mul, one-le-pow, two-pow-succ, pow-suc, pow-succ', zero-div, mod-eq_of_lt,
  mul_assoc,
}

-- `x >> n` of a word of `width` bits in a release build: the count is taken modulo the width.
abbrev pub shift_right : ℕ → ℕ → ℕ → ℕ
shift_right width x n = x / 2 ^ (n % width)

-- `!x` of a word of `width` bits.
abbrev pub bit_not : ℕ → ℕ → ℕ
bit_not width x = 2 ^ width - 1 - x

pow_pos : (n : ℕ) → 0 < 2 ^ n
pow_pos n = one-le-pow n 2 (omega arith)

-- The conjunction on `n` binary digits.
abbrev and_low : ℕ → ℕ → ℕ → ℕ
and_low n x y = digits (λ b. zero) min n x y

-- One round, with what is left of the two numbers.
and_low_step :
    (n a x y p : ℕ)
    → y / 2 ≡ p
    → and_low n (suc a / 2) p ≡ x
    → and_low (suc n) (suc a) y ≡ x * 2 + min (suc a % 2) (y % 2)
and_low_step n a x y p e h =
    ap (λ z. and_low n (suc a / 2) z * 2 + min (suc a % 2) (y % 2)) e
    ∙ ap (λ z. z * 2 + min (suc a % 2) (y % 2)) h

-- All ones keep a word.
and_low-ones : (n w x : ℕ) → x ≤ n → x < 2 ^ w → and_low n x (2 ^ w - 1) ≡ x
and_low-ones zero w x h l = omega (arith, h)
and_low-ones (suc n) w zero h l = refl
and_low-ones (suc n) zero (suc x) h l = absurd (omega (arith, l))
and_low-ones (suc n) (suc w) (suc x) h l =
    let two = two-pow-succ w in
    and_low_step n x (suc x / 2) (2 ^ suc w - 1) (2 ^ w - 1) (omega (arith, two, pow_pos w))
      (and_low-ones n w (suc x / 2) (omega (arith, h)) (omega (arith, l, two)))
    ∙ omega (arith, two, pow_pos w)

no_bits : (m : ℕ) → 0 ≡ 0 / m * m
no_bits m = sym (ap (λ z. z * m) (zero-div m) ∙ omega arith)

-- A mask whose lowest `k` digits are zero clears these.
and_low-cleared :
    (n w k x : ℕ) → k ≤ w → x ≤ n → x < 2 ^ w → and_low n x (2 ^ w - 2 ^ k) ≡ x / 2 ^ k * 2 ^ k
and_low-cleared n w zero x h le l = and_low-ones n w x le l ∙ omega arith
and_low-cleared n zero (suc k) x h le l = absurd (omega (arith, h))
and_low-cleared zero (suc w) (suc k) zero h le l = no_bits (2 ^ suc k)
and_low-cleared zero (suc w) (suc k) (suc x) h le l = absurd (omega (arith, le))
and_low-cleared (suc n) (suc w) (suc k) zero h le l = no_bits (2 ^ suc k)
and_low-cleared (suc n) (suc w) (suc k) (suc x) h le l =
    let half = suc x / 2 / 2 ^ k in
    and_low_step n x (half * 2 ^ k) (2 ^ suc w - 2 ^ suc k) (2 ^ w - 2 ^ k)
      (omega (arith, two-pow-succ w, two-pow-succ k))
      (and_low-cleared n w k (suc x / 2) (omega (arith, h)) (omega (arith, le))
        (omega (arith, l, two-pow-succ w)))
    ∙ even (half * 2 ^ k) (suc x % 2) (2 ^ w - 2 ^ k) (2 ^ suc w - 2 ^ suc k)
        (omega (arith, two-pow-succ w, two-pow-succ k))
    ∙ mul_assoc half (2 ^ k) 2
    ∙ ap₂ (λ a b. a * b)
        (div-div-eq-div-mul (suc x) 2 (2 ^ k) ∙ ap (λ z. suc x / z) (sym (pow-succ' 2 k)))
        (sym (pow-suc 2 k))
  where
    even : (q r m y : ℕ) → y ≡ m + m → q * 2 + min r (y % 2) ≡ q * 2
    even q r m y e = omega (arith, e)

plus_zero : (a : ℕ) → a + 0 ≡ a
plus_zero a = omega arith

plus_suc : (a b : ℕ) → a + suc b ≡ suc (a + b)
plus_suc a b = omega arith

-- A shift of all ones leaves the ones that are not shifted out.
ones_shifted : (a b : ℕ) → (2 ^ (a + b) - 1) / 2 ^ b ≡ 2 ^ a - 1
ones_shifted a zero = ap (λ z. (2 ^ z - 1) / 1) (plus_zero a) ∙ omega arith
ones_shifted a (suc b) =
    ap (λ z. (2 ^ z - 1) / 2 ^ suc b) (plus_suc a b)
    ∙ ap (λ z. (2 ^ suc (a + b) - 1) / z) (pow-succ' 2 b)
    ∙ sym (div-div-eq-div-mul (2 ^ suc (a + b) - 1) 2 (2 ^ b))
    ∙ ap (λ z. z / 2 ^ b) (omega (arith, two-pow-succ (a + b), pow_pos (a + b)))
    ∙ ones_shifted a b

-- All ones keep a word, and the complement of all ones shifted by `cidr` keeps its first `cidr` bits.
pub bit_and-ones : (width x : ℕ) → x < 2 ^ width → bit_and x (2 ^ width - 1) ≡ x
bit_and-ones width x l = bit_and-bitwise x (2 ^ width - 1) ∙ and_low-ones x width x (omega arith) l

pub bit_and-prefix :
    (width cidr x : ℕ)
    → cidr < width
    → x < 2 ^ width
    → bit_and x (bit_not width (shift_right width (2 ^ width - 1) cidr))
      ≡ x / 2 ^ (width - cidr) * 2 ^ (width - cidr)
bit_and-prefix width cidr x h l =
    let k = width - cidr in
    let shifted : shift_right width (2 ^ width - 1) cidr ≡ 2 ^ k - 1 =
      ap (λ z. (2 ^ width - 1) / 2 ^ z) (mod-eq_of_lt h)
      ∙ ap (λ z. (2 ^ z - 1) / 2 ^ cidr) (omega (arith, h))
      ∙ ones_shifted k cidr in
    let mask : bit_not width (shift_right width (2 ^ width - 1) cidr) ≡ 2 ^ width - 2 ^ k =
      ap (λ z. 2 ^ width - 1 - z) shifted ∙ omega (arith, pow_pos k, pow_pos width) in
    ap (bit_and x) mask
    ∙ bit_and-bitwise x (2 ^ width - 2 ^ k)
    ∙ and_low-cleared x width k x (omega arith) (omega arith) l
