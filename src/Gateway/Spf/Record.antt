-- ===== src/Gateway/Spf/Record.antt =====
-- Reading a record in crates/gateway/src/spf.rs: `parse_record` and what it calls. A
-- `Result<A, ()>` is an `Option`.
use vulos_relay.Base.{
  ℕ, Bool, false, Option, none, some, List, [], ◌∷◌, Bytes, bytes_beq, codes, ltb, ◌==◌, ◌||◌,
  if◌then◌else◌, any,
}
use vulos_relay.Base.Chain.{◌>>=◌}
use vulos_relay.Base.Text.{
  to_ascii_lowercase, eq_ignore_ascii_case, is_empty, break, trim, trim_end_matches,
  split_whitespace, split_once, strip_prefix, starts_with, parse_u8,
}
use vulos_relay.Gateway.Spf.Address.{parse_ipv4, parse_ipv6}

pub data Qualifier : Type 0 where
  pass fail soft_fail neutral : Qualifier

pub data Mechanism : Type 0 where
  all : Mechanism
  include : Bytes → Mechanism
  a : (domain : Option Bytes) (cidr4 cidr6 : ℕ) → Mechanism
  mx : (domain : Option Bytes) (cidr4 cidr6 : ℕ) → Mechanism
  ip4 : (net cidr : ℕ) → Mechanism
  ip6 : (net cidr : ℕ) → Mechanism
  ptr : Mechanism
  exists : Bytes → Mechanism

pub record ParsedRecord : Type 0 where
  pub mechanisms : List (Qualifier × Mechanism)
  pub redirect : Option Bytes

-- A number with a bound.
abbrev pub at_most : ℕ → Option ℕ → Option ℕ
at_most bound none = none
at_most bound (some n) = if ltb bound n then none else some n

-- `rest.split('/')` in `parse_dual_cidr`: one part, or two when the second has no `/`.
unfoldable pub parse_cidrs : Bytes → Option (ℕ × ℕ)
unfolding split_once parse_u8
parse_cidrs rest = elim (split_once 47 rest) [
  | none ↦ do c4 ← at_most 32 (parse_u8 rest); some (c4, 128)
  | some (first, second) ↦ do
    c4 ← at_most 32 (parse_u8 first)
    c6 ← at_most 128 (parse_u8 second)
    some (c4, c6)
]

unfoldable pub parse_dual_cidr : Bytes → Option (ℕ × ℕ)
unfolding strip_prefix is_empty parse_cidrs parse_u8
parse_dual_cidr cidr_part =
    if is_empty cidr_part then some (32, 128) else elim (strip_prefix (codes "//") cidr_part) [
      | some v6only ↦ do v ← at_most 128 (parse_u8 v6only); some (32, v)
      | none ↦ do rest ← strip_prefix (codes "/") cidr_part; parse_cidrs rest
    ]

-- The characters after a `:`, at least one.
unfoldable pub after_colon : Bytes → Option Bytes
unfolding strip_prefix is_empty
after_colon rest = do v ← strip_prefix (codes ":") rest; if is_empty v then none else some v

abbrev pub optional : Option Bytes → Option (Option Bytes)
optional none = none
optional (some d) = some (some d)

unfoldable pub parse_domain_spec : Bytes → Option (Option Bytes × ℕ × ℕ)
unfolding break after_colon is_empty parse_dual_cidr
parse_domain_spec rest =
    let (domain_part, cidr_part) = break (λ c. c == 47) rest in
    do
      domain ← if is_empty domain_part then some none else optional (after_colon domain_part)
      (cidr4, cidr6) ← parse_dual_cidr cidr_part
      some (domain, cidr4, cidr6)

-- `parse_ip4_cidr` and `parse_ip6_cidr`: an address, and a length of at most the width.
abbrev pub parse_cidr : ℕ → (Bytes → Option ℕ) → Bytes → Option (ℕ × ℕ)
parse_cidr width parse v = elim (split_once 47 v) [
  | none ↦ do ip ← parse v; some (ip, width)
  | some (addr, c) ↦ do cidr ← at_most width (parse_u8 c); ip ← parse addr; some (ip, cidr)
]

unfoldable pub parse_ip4_cidr : Bytes → Option (ℕ × ℕ)
unfolding split_once parse_u8 parse_ipv4
parse_ip4_cidr = parse_cidr 32 parse_ipv4

unfoldable pub parse_ip6_cidr : Bytes → Option (ℕ × ℕ)
unfolding split_once parse_u8 parse_ipv6
parse_ip6_cidr = parse_cidr 128 parse_ipv6

-- The arms of `parse_mechanism` by keyword.
unfoldable pub parse_keyword : Bytes → Bytes → Option Mechanism
unfolding after_colon parse_domain_spec strip_prefix is_empty parse_ip4_cidr parse_ip6_cidr
parse_keyword keyword rest =
    if bytes_beq keyword (codes "all")
    then if is_empty rest then some all else none
    else if bytes_beq keyword (codes "include")
    then (do v ← after_colon rest; some (include v))
    else if bytes_beq keyword (codes "exists")
    then (do v ← after_colon rest; some (exists v))
    else if bytes_beq keyword (codes "a")
    then (do (domain, cidr4, cidr6) ← parse_domain_spec rest; some (a domain cidr4 cidr6))
    else if bytes_beq keyword (codes "mx")
    then (do (domain, cidr4, cidr6) ← parse_domain_spec rest; some (mx domain cidr4 cidr6))
    else if bytes_beq keyword (codes "ptr")
    then if is_empty rest then some ptr else (do d ← after_colon rest; some ptr)
    else if bytes_beq keyword (codes "ip4")
    then (do v ← strip_prefix (codes ":") rest; (net, cidr) ← parse_ip4_cidr v; some (ip4 net cidr))
    else if bytes_beq keyword (codes "ip6")
    then (do v ← strip_prefix (codes ":") rest; (net, cidr) ← parse_ip6_cidr v; some (ip6 net cidr))
    else none

unfoldable pub parse_mechanism : Bytes → Option Mechanism
unfolding break to_ascii_lowercase is_empty parse_keyword
parse_mechanism s =
    let (keyword, rest) = break (λ c. c == 58 || c == 47) s in
    if is_empty s then none else parse_keyword (to_ascii_lowercase keyword) rest

-- The qualifier of a term and what follows it.
abbrev pub qualified : Bytes → Qualifier × Bytes
qualified [] = (pass, [])
qualified (c ∷ term) =
    if c == 43
    then (pass, term)
    else if c == 45
    then (fail, term)
    else if c == 126
    then (soft_fail, term)
    else if c == 63
    then (neutral, term)
    else (pass, c ∷ term)

-- A term `name=value`: only `redirect` counts, once and not empty.
unfoldable pub parse_modifier : Option Bytes → Bytes → Bytes → Option (Option Bytes)
unfolding eq_ignore_ascii_case is_empty
parse_modifier redirect name value =
    if eq_ignore_ascii_case name (codes "redirect")
    then (elim redirect [
      | some target ↦ none
      | none ↦ if is_empty value then none else some (some value)
    ])
    else some redirect

-- The loop over the terms after the version, with the `redirect` so far.
unfoldable pub parse_terms : Option Bytes → List Bytes → Option ParsedRecord
unfolding split_once parse_modifier parse_mechanism
parse_terms redirect [] = some (record { mechanisms = []; redirect = redirect })
parse_terms redirect (term ∷ terms) = elim (split_once 61 term) [
  | some (name, value) ↦ do
    redirect₁ ← parse_modifier redirect name value
    parse_terms redirect₁ terms
  | none ↦ do
    mech ← parse_mechanism (qualified term).1
    parsed ← parse_terms redirect terms
    some (record parsed { mechanisms = ((qualified term).0, mech) ∷ parsed.mechanisms })
]

abbrev pub parse_versioned : List Bytes → Option ParsedRecord
parse_versioned [] = none
parse_versioned (version ∷ terms) =
    if bytes_beq version (codes "v=spf1") then parse_terms none terms else none

unfoldable pub parse_record : Bytes → Option ParsedRecord
unfolding split_whitespace parse_terms
parse_record record_text = parse_versioned (split_whitespace record_text)

unfoldable pub normalize : Bytes → Bytes
unfolding trim trim_end_matches to_ascii_lowercase
normalize d = to_ascii_lowercase (trim_end_matches 46 (trim d))

unfoldable pub is_spf1_record : Bytes → Bool
unfolding trim starts_with
is_spf1_record t = bytes_beq (trim t) (codes "v=spf1") || starts_with (codes "v=spf1 ") (trim t)

abbrev pub has_percent : Bytes → Bool
has_percent d = any (λ c. c == 37) d

unfoldable pub mechanism_has_macro : Mechanism → Bool
mechanism_has_macro (include d) = has_percent d
mechanism_has_macro (exists d) = has_percent d
mechanism_has_macro (a (some d) cidr4 cidr6) = has_percent d
mechanism_has_macro (mx (some d) cidr4 cidr6) = has_percent d
mechanism_has_macro _ = false
