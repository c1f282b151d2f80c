-- ===== src/Gateway/Alias/Token.antt =====
-- `base32_lower` of crates/gateway/src/alias_map.rs, and what its tokens look like.
use vulos_relay.Base.{
  ℕ, zero, suc, ◌+◌, ◌-◌, ◌*◌, ◌/◌, ◌%◌, ◌^◌, ◌≤◌, ◌<◌, ◌≡◌, true, Bool-cases, inl, inr, [], ◌∷◌,
  ◌++◌, arith, Bytes, codes, ltb, leb, ◌==◌, if◌then◌else◌, length, length-append, any, All,
  All-append,
}

abbrev pub base32_alphabet : Bytes
base32_alphabet = codes "abcdefghijklmnopqrstuvwxyz234567"

-- Indexing; an index out of range does not occur.
abbrev nth : Bytes → ℕ → ℕ
nth [] i = 0
nth (c ∷ cs) zero = c
nth (c ∷ cs) (suc i) = nth cs i

-- The alphabet at the low five bits of a word.
unfoldable pub digit : ℕ → ℕ
digit w = nth base32_alphabet (w % 32)

-- `while nbits >= 5 { … }`: the digits and the bits that are left.
unfoldable pub drain : ℕ → ℕ → ℕ → Bytes × ℕ
drain zero bits nbits = ([], nbits)
drain (suc fuel) bits nbits =
    let rest = drain fuel bits (nbits - 5) in
    if leb 5 nbits then (digit (bits / 2 ^ (nbits - 5)) ∷ rest.0, rest.1) else ([], nbits)

-- The loop over the input, with the 32-bit buffer and the number of bits that are not written yet.
unfoldable pub encode_from : ℕ → ℕ → Bytes → Bytes
unfolding drain digit
encode_from bits nbits [] = if ltb 0 nbits then digit (bits * 2 ^ (5 - nbits)) ∷ [] else []
encode_from bits nbits (b ∷ input) =
    let bits₁ = (bits * 256 + b) % 2 ^ 32 in
    let (out, nbits₁) = drain (nbits + 8) bits₁ (nbits + 8) in out ++ encode_from bits₁ nbits₁ input

unfoldable pub base32_lower : Bytes → Bytes
unfolding encode_from
base32_lower = encode_from 0 0

abbrev pub IsDigit : ℕ → Type 0
IsDigit c = any (λ d. d == c) base32_alphabet ≡ true

any-nth : (cs : Bytes) (i : ℕ) → i < length cs → any (λ d. d == nth cs i) cs ≡ true
any-nth [] i h = ground (arith, h)
any-nth (c ∷ cs) zero h = ground arith
any-nth (c ∷ cs) (suc i) h = ground (arith, any-nth cs i)

digit-IsDigit : (w : ℕ) → IsDigit (digit w)
unfolding digit
digit-IsDigit w = any-nth base32_alphabet (w % 32) (omega arith)

drain-IsDigit : (fuel bits nbits : ℕ) → All IsDigit (drain fuel bits nbits).0
unfolding drain
drain-IsDigit zero bits nbits = tt
drain-IsDigit (suc fuel) bits nbits = elim (Bool-cases (leb 5 nbits)) [
  | inl q ↦ rw q (digit-IsDigit (bits / 2 ^ (nbits - 5)), drain-IsDigit fuel bits (nbits - 5))
  | inr q ↦ rw q tt
]

drain_lem :
    (fuel bits nbits : ℕ)
    → nbits ≤ fuel
    → (5 * length (drain fuel bits nbits).0 + (drain fuel bits nbits).1 ≡ nbits)
      × ((drain fuel bits nbits).1 < 5)
unfolding drain
drain_lem zero bits nbits h = (omega arith, omega arith)
drain_lem (suc fuel) bits nbits h = elim (Bool-cases (leb 5 nbits)) [
  | inl q ↦
      let ih = drain_lem fuel bits (nbits - 5) (ground arith) in rw q ((ground (arith, ih.0), ih.1))
  | inr q ↦ rw q (omega arith, ground arith)
]

encode_from-IsDigit : (bits nbits : ℕ) (input : Bytes) → All IsDigit (encode_from bits nbits input)
unfolding encode_from
encode_from-IsDigit bits nbits [] = elim (Bool-cases (ltb 0 nbits)) [
  | inl q ↦ rw q (digit-IsDigit (bits * 2 ^ (5 - nbits)), tt)
  | inr q ↦ rw q tt
]
encode_from-IsDigit bits nbits (b ∷ input) =
    let bits₁ = (bits * 256 + b) % 2 ^ 32 in
    All-append IsDigit (drain (nbits + 8) bits₁ (nbits + 8)).0
      (encode_from bits₁ (drain (nbits + 8) bits₁ (nbits + 8)).1 input)
      (drain-IsDigit (nbits + 8) bits₁ (nbits + 8))
      (encode_from-IsDigit bits₁ (drain (nbits + 8) bits₁ (nbits + 8)).1 input)

length-encode_from :
    (bits nbits : ℕ) (input : Bytes)
    → nbits < 5
    → length (encode_from bits nbits input) ≡ (8 * length input + nbits + 4) / 5
unfolding encode_from
length-encode_from bits nbits [] h = ground arith
length-encode_from bits nbits (b ∷ input) h =
    let bits₁ = (bits * 256 + b) % 2 ^ 32 in
    let d = drain_lem (nbits + 8) bits₁ (nbits + 8) (omega arith) in
    let nbits₁ = (drain (nbits + 8) bits₁ (nbits + 8)).1 in
    omega (
      arith,
      d.0,
      length-append (drain (nbits + 8) bits₁ (nbits + 8)).0 (encode_from bits₁ nbits₁ input),
      length-encode_from bits₁ nbits₁ input d.1,
    )

-- A token has one character for every five bits of the input, the last ones padded, and every
-- character is in the base32 alphabet, which has no dot.
pub base32_lower_lem :
    (input : Bytes)
    → (length (base32_lower input) ≡ (8 * length input + 4) / 5) × All IsDigit (base32_lower input)
unfolding base32_lower
base32_lower_lem input =
    (omega (arith, length-encode_from 0 0 input (omega arith)), encode_from-IsDigit 0 0 input)
