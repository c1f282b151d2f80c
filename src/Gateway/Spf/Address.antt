-- ===== src/Gateway/Spf/Address.antt =====
-- The addresses of crates/gateway/src/spf.rs: reading an IPv4 or IPv6 literal, as the standard
-- library's parser does, and the tests `ipv4_in_cidr` and `ipv6_in_cidr`. An address is its number.
use Prim.Native.Nat.{bit_and}
use vulos_relay.Base.Bits.{bit_not, shift_right}
use vulos_relay.Base.Chain.{◌>>=◌}
use vulos_relay.Base.{
  ℕ, zero, suc, ◌+◌, ◌-◌, ◌*◌, ◌/◌, ◌%◌, ◌^◌, min, Bool, true, false, Option, none, some, List, [],
  ◌∷◌, ◌++◌, Bytes, ltb, leb, ◌==◌, ◌&&◌, ◌||◌, not, if◌then◌else◌, length,
}

pub data IpAddr : Type 0 where
  v4 : ℕ → IpAddr
  v6 : ℕ → IpAddr

-- `char::to_digit`; a radix above 10 is 16.
abbrev to_digit : ℕ → ℕ → Option ℕ
to_digit radix c =
    if leb 48 c && leb c 57
    then some (c - 48)
    else if leb 97 c && leb c 102 && ltb 10 radix
    then some (c - 87)
    else if leb 65 c && leb c 70 && ltb 10 radix
    then some (c - 55)
    else none

-- The digits of a number: its value, how many digits, and the bytes after it; `none` where there
-- are more than `max_digits` or the value passes `bound`.
unfoldable pub read_digits : ℕ → ℕ → ℕ → ℕ → ℕ → Bytes → Option (ℕ × ℕ × Bytes)
read_digits radix bound max_digits count value [] = some (value, count, [])
read_digits radix bound max_digits count value (c ∷ s) = elim (to_digit radix c) [
  | none ↦ some (value, count, c ∷ s)
  | some d ↦
      let rest = read_digits radix bound max_digits (suc count) (value * radix + d) s in
      if leb (value * radix + d) bound && ltb count max_digits then rest else none
]

abbrev leads_with_zero : Bytes → Bool
leads_with_zero [] = false
leads_with_zero (c ∷ s) = c == 48

-- `Parser::read_number`
unfoldable pub read_number : ℕ → ℕ → ℕ → Bool → Bytes → Option (ℕ × Bytes)
unfolding read_digits
read_number radix bound max_digits allow_zero_prefix s = do
  (value, count, rest) ← read_digits radix bound max_digits 0 0 s
  if count == 0 || (not allow_zero_prefix && leads_with_zero s && ltb 1 count)
      then none
      else some (value, rest)

-- `Parser::read_given_char`
abbrev read_given_char : ℕ → Bytes → Option Bytes
read_given_char c [] = none
read_given_char c (x ∷ s) = if x == c then some s else none

abbrev separator : ℕ → ℕ → Bytes → Option Bytes
separator c zero s = some s
separator c (suc index) s = read_given_char c s

unfoldable pub read_octet : ℕ → Bytes → Option (ℕ × Bytes)
unfolding read_number
read_octet index s = do rest ← separator 46 index s; read_number 10 255 3 false rest

unfoldable pub read_ipv4_addr : Bytes → Option (ℕ × Bytes)
unfolding read_octet
read_ipv4_addr s = do
  (o₀, s₁) ← read_octet 0 s
  (o₁, s₂) ← read_octet 1 s₁
  (o₂, s₃) ← read_octet 2 s₂
  (o₃, s₄) ← read_octet 3 s₃
  some (((o₀ * 256 + o₁) * 256 + o₂) * 256 + o₃, s₄)

abbrev whole : Option (ℕ × Bytes) → Option ℕ
whole none = none
whole (some (n, [])) = some n
whole (some (n, c ∷ s)) = none

-- `Ipv4Addr::from_str`
unfoldable pub parse_ipv4 : Bytes → Option ℕ
unfolding read_ipv4_addr
parse_ipv4 s = if ltb 15 (length s) then none else whole (read_ipv4_addr s)

-- An embedded IPv4 address needs two groups.
abbrev read_embedded : ℕ → ℕ → Bytes → Option (ℕ × Bytes)
read_embedded zero index s = none
read_embedded (suc left) index s = do rest ← separator 58 index s; read_ipv4_addr rest

unfoldable pub read_group : ℕ → Bytes → Option (ℕ × Bytes)
unfolding read_number
read_group index s = do rest ← separator 58 index s; read_number 16 0xffff 4 true rest

-- `read_groups` on as many slots as its first argument: the groups, whether the last two were an
-- IPv4 address, and the bytes after them.
unfoldable pub read_groups : ℕ → ℕ → Bytes → List ℕ × Bool × Bytes
unfolding read_ipv4_addr read_group
read_groups zero index s = ([], false, s)
read_groups (suc left) index s = elim (read_embedded left index s) [
  | some (v, rest) ↦ (v / 2 ^ 16 ∷ v % 2 ^ 16 ∷ [], true, rest)
  | none ↦ elim (read_group index s) [
    | none ↦ ([], false, s)
    | some (g, rest) ↦
        let (groups, ipv4, after) = read_groups left (suc index) rest in (g ∷ groups, ipv4, after)
  ]
]

abbrev zeroes : ℕ → List ℕ
zeroes zero = []
zeroes (suc n) = 0 ∷ zeroes n

abbrev from_groups : ℕ → List ℕ → ℕ
from_groups n [] = n
from_groups n (g ∷ gs) = from_groups (n * 2 ^ 16 + g) gs

-- The groups after a `::`.
unfoldable pub read_tail : List ℕ → Bytes → Option (ℕ × Bytes)
unfolding read_groups
read_tail head s = do
  s₁ ← read_given_char 58 s
  s₂ ← read_given_char 58 s₁
  let (tail, ipv4, rest) = read_groups (8 - (length head + 1)) 0 s₂ in
      some (from_groups 0 (head ++ zeroes (8 - length head - length tail) ++ tail), rest)

unfoldable pub read_ipv6_addr : Bytes → Option (ℕ × Bytes)
unfolding read_groups read_tail
read_ipv6_addr s =
    let (head, ipv4, rest) = read_groups 8 0 s in
    if length head == 8
    then some (from_groups 0 head, rest)
    else if ipv4
    then none
    else read_tail head rest

-- `Ipv6Addr::from_str`
unfoldable pub parse_ipv6 : Bytes → Option ℕ
unfolding read_ipv6_addr
parse_ipv6 s = whole (read_ipv6_addr s)

-- The prefix length is at most 32 from `min` on, and the mask is guarded, since a shift of a word by
-- its whole width shifts by nothing in a release build.
unfoldable pub ipv4_in_cidr : ℕ → ℕ → ℕ → Bool
ipv4_in_cidr ip net cidr =
    if cidr == 0
    then true
    else (let c = min cidr 32 in
        let u32_max = 2 ^ 32 - 1 in
        let mask = if c == 32 then u32_max else bit_not 32 (shift_right 32 u32_max c) in
        bit_and ip mask == bit_and net mask)

unfoldable pub ipv6_in_cidr : ℕ → ℕ → ℕ → Bool
ipv6_in_cidr ip net cidr =
    if cidr == 0
    then true
    else (let c = min cidr 128 in
        let u128_max = 2 ^ 128 - 1 in
        let mask = if c == 128 then u128_max else bit_not 128 (shift_right 128 u128_max c) in
        bit_and ip mask == bit_and net mask)
