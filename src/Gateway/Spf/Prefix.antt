-- ===== src/Gateway/Spf/Prefix.antt =====
-- What `ipv4_in_cidr` and `ipv6_in_cidr` of crates/gateway/src/spf.rs test.
use vulos_relay.Base.{
  ℕ, zero, suc, ◌-◌, ◌*◌, ◌/◌, ◌^◌, ◌≤◌, ◌<◌, ◌≡◌, ap, sym, ◌∙◌, min, true, false, Bool-cases,
  if◌then◌else◌, inl, inr, ◌==◌, arith,
}
use native.Mathlib.Nat.{mul-div_cancel, one-le-pow}
use Prim.Native.Nat.{bit_and}
use vulos_relay.Base.Bits.{bit_not, shift_right, bit_and-ones, bit_and-prefix}
use vulos_relay.Gateway.Spf.Address.{ipv4_in_cidr, ipv6_in_cidr}

power_pos : (n : ℕ) → 0 < 2 ^ n
power_pos n = one-le-pow n 2 (omega arith)

cancel : (x y k : ℕ) → 0 < k → x * k ≡ y * k → x ≡ y
cancel x y k h e = sym (mul-div_cancel x h) ∙ ap (λ z. z / k) e ∙ mul-div_cancel y h

==→eq : (x y : ℕ) → (x == y) ≡ true → x ≡ y
==→eq x y h = ground (arith, h)

not_zero : (n : ℕ) → (suc n == 0) ≡ false
not_zero n = ground arith

-- A mask keeps the quotient by the part that it clears.
masked_lem : (k x y : ℕ) → 0 < k → (x / k * k == y / k * k) ≡ (x / k == y / k)
masked_lem k x y h = elim (Bool-cases (x / k == y / k)) [
  | inl q ↦ ground (arith, q, ap (λ z. z * k) (==→eq (x / k) (y / k) q))
  | inr q ↦ elim (Bool-cases (x / k * k == y / k * k)) [
    | inr e ↦ e ∙ sym q
    | inl e ↦ ground (arith, q, cancel (x / k) (y / k) k h (==→eq (x / k * k) (y / k * k) e))
  ]
]

-- The guarded mask of a prefix keeps the first bits of a word.
abbrev mask_of : ℕ → ℕ → ℕ
mask_of width c =
    if c == width then 2 ^ width - 1 else bit_not width (shift_right width (2 ^ width - 1) c)

bit_and-mask_of :
    (width cidr x : ℕ)
    → cidr ≤ width
    → x < 2 ^ width
    → bit_and x (mask_of width (min cidr width)) ≡ x / 2 ^ (width - cidr) * 2 ^ (width - cidr)
bit_and-mask_of width cidr x h l =
    let c : min cidr width ≡ cidr = omega (arith, h) in
    elim (Bool-cases (cidr == width)) [
      | inl q ↦
          rw (c, q)
            (bit_and-ones width x l ∙ sym (ap (λ k. x / 2 ^ k * 2 ^ k) (whole q) ∙ omega arith))
      | inr q ↦ rw (c, q) (bit_and-prefix width cidr x (ground (arith, h, q)) l)
    ]
  where
    whole : (cidr == width) ≡ true → width - cidr ≡ 0
    whole q = ground (arith, q)

agree :
    (width cidr ip net : ℕ)
    → cidr ≤ width
    → ip < 2 ^ width
    → net < 2 ^ width
    → (bit_and ip (mask_of width (min cidr width)) == bit_and net (mask_of width (min cidr width)))
      ≡ (ip / 2 ^ (width - cidr) == net / 2 ^ (width - cidr))
agree width cidr ip net h hi hn =
    rw (bit_and-mask_of width cidr ip h hi, bit_and-mask_of width cidr net h hn)
      (masked_lem (2 ^ (width - cidr)) ip net (power_pos (width - cidr)))

-- An IPv4 address is in a network with a prefix of `cidr` bits when the first `cidr` bits of the two
-- agree.
pub ipv4_in_cidr_lem :
    (ip net cidr : ℕ)
    → ip < 2 ^ 32
    → net < 2 ^ 32
    → cidr ≤ 32
    → ipv4_in_cidr ip net cidr ≡ (ip / 2 ^ (32 - cidr) == net / 2 ^ (32 - cidr))
unfolding ipv4_in_cidr
ipv4_in_cidr_lem ip net zero hi hn hc = ground arith
ipv4_in_cidr_lem ip net (suc cidr) hi hn hc =
    rw (ipv4_in_cidr, not_zero cidr) (agree 32 (suc cidr) ip net hc hi hn)

-- An IPv6 address is in a network with a prefix of `cidr` bits when the first `cidr` bits of the two
-- agree.
pub ipv6_in_cidr_lem :
    (ip net cidr : ℕ)
    → ip < 2 ^ 128
    → net < 2 ^ 128
    → cidr ≤ 128
    → ipv6_in_cidr ip net cidr ≡ (ip / 2 ^ (128 - cidr) == net / 2 ^ (128 - cidr))
unfolding ipv6_in_cidr
ipv6_in_cidr_lem ip net zero hi hn hc = ground arith
ipv6_in_cidr_lem ip net (suc cidr) hi hn hc =
    rw (ipv6_in_cidr, not_zero cidr) (agree 128 (suc cidr) ip net hc hi hn)
