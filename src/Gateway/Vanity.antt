-- ===== src/Gateway/Vanity.antt =====
-- The vanity names of crates/gateway/src/authz.rs: `AliasAllocator`. The content address of a key is
-- a parameter (`ContentId::of(key).digest()`, of a crate that is not in the repository); the sets and
-- maps are lists, with one entry for each key of a map.
pub mod Names
pub mod Indexes
pub mod Consistent
pub mod Holding
pub mod Resolving
use vulos_relay.Base.{
  ℕ, ◌+◌, Bool, true, false, not, Option, none, some, List, [], ◌∷◌, ◌++◌, Bytes, bytes_eq,
  bytes_beq, codes, ltb, leb, ◌==◌, ◌&&◌, ◌||◌, if◌then◌else◌, length, take, keep, any, find,
}
use vulos_relay.Base.Dict.{Dict, get, insert, remove}
use vulos_relay.Base.Result.{Result, ok, err}
use vulos_relay.Base.Text.{
  to_ascii_lowercase, eq_ignore_ascii_case, is_empty, trim, starts_with, strip_prefix, rsplit_once,
  is_ascii_alphanumeric, every,
}
use vulos_relay.Gateway.Alias.Token.{base32_alphabet, base32_lower}
use vulos_relay.Gateway.Forwarded.{is_valid_domain}

pub data AliasError : Type 0 where
  invalid_local_part : Bytes → AliasError
  contains_dot : Bytes → AliasError
  taken : Bytes → AliasError
  reserved_collision : Bytes → AliasError
  shadows_directory_identity : Bytes → AliasError
  invalid_gateway_domain : Bytes → AliasError

abbrev pub max_vanity_len : ℕ
max_vanity_len = 64

abbrev pub reserved_alias_prefix : Bytes
reserved_alias_prefix = codes "dmtap1-"

pub record AliasAllocator : Type 0 where
  pub domain : Bytes
  pub vanity : Dict Bytes Bytes
  pub reverse : List (Bytes × Bytes)
  pub reserved : List Bytes

-- `is_valid_dns_domain`, which repeats the test of forwarded_addr.rs word for word.
unfoldable pub is_valid_dns_domain : Bytes → Bool
unfolding is_valid_domain
is_valid_dns_domain = is_valid_domain

unfoldable pub for_domain : Bytes → Result AliasError AliasAllocator
unfolding trim to_ascii_lowercase is_valid_dns_domain
for_domain raw =
    let d = to_ascii_lowercase (trim raw) in
    if is_valid_dns_domain d
    then ok (record { domain = d; vanity = []; reverse = []; reserved = [] })
    else err (invalid_gateway_domain raw)

abbrev pub contains : List Bytes → Bytes → Bool
contains xs x = any (λ y. bytes_beq y x) xs

-- The loop of `reserve_localpart`, after the name is normalized.
unfoldable pub reserve : AliasAllocator → Bytes → AliasAllocator
reserve m lp = record {
  domain = m.domain;
  vanity = remove m.vanity lp;
  reverse = keep (λ e. not (bytes_beq e.1 lp)) m.reverse;
  reserved = lp ∷ m.reserved;
}

unfoldable pub reserve_localpart : AliasAllocator → Bytes → AliasAllocator
unfolding trim to_ascii_lowercase reserve
reserve_localpart m local_part = reserve m (to_ascii_lowercase (trim local_part))

unfoldable pub reserve_directory_address : AliasAllocator → Bytes → Bool × AliasAllocator
unfolding rsplit_once trim eq_ignore_ascii_case reserve_localpart
reserve_directory_address m email = elim (rsplit_once 64 email) [
  | none ↦ (false, m)
  | some (lp, dom) ↦
      if eq_ignore_ascii_case (trim dom) m.domain
      then (true, reserve_localpart m lp)
      else (false, m)
]

abbrev pub is_vanity_byte : ℕ → Bool
is_vanity_byte c = is_ascii_alphanumeric c || c == 45 || c == 95 || c == 43

unfoldable pub is_valid_vanity_charset : Bytes → Bool
unfolding is_empty
is_valid_vanity_charset lp =
    if is_empty lp || ltb max_vanity_len (length lp) then false else every is_vanity_byte lp

abbrev pub is_base32 : ℕ → Bool
is_base32 c = any (λ d. d == c) base32_alphabet

abbrev pub sixteen : Option Bytes → Bool
sixteen none = false
sixteen (some rest) = length rest == 16 && every is_base32 rest

unfoldable pub is_key_derived_form : Bytes → Bool
unfolding strip_prefix
is_key_derived_form lp = sixteen (strip_prefix (codes "k") lp)

abbrev pub has_dot : Bytes → Bool
has_dot s = any (λ c. c == 46) s

unfoldable pub check_vanity : AliasAllocator → Bytes → Result AliasError Bytes
unfolding to_ascii_lowercase is_valid_vanity_charset starts_with is_key_derived_form
check_vanity m local_part =
    let lp = to_ascii_lowercase local_part in
    if has_dot local_part
    then err (contains_dot local_part)
    else if not (is_valid_vanity_charset lp)
    then err (invalid_local_part local_part)
    else if starts_with reserved_alias_prefix lp || is_key_derived_form lp
    then err (reserved_collision local_part)
    else if contains m.reserved lp
    then err (shadows_directory_identity local_part)
    else ok lp

abbrev pub qualify : AliasAllocator → Bytes → Bytes
qualify m local_part = local_part ++ 64 ∷ m.domain

-- `self.reverse.iter().position(…)` and `self.reverse.remove(pos)`
unfoldable pub remove_first : Bytes → List (Bytes × Bytes) → List (Bytes × Bytes)
remove_first k [] = []
remove_first k ((j, lp) ∷ rest) =
    let others = remove_first k rest in if bytes_beq j k then rest else (j, lp) ∷ others

-- The key's prior name goes from both indexes.
unfoldable pub drop_prior : AliasAllocator → Bytes → AliasAllocator
unfolding remove_first
drop_prior m public_key = elim (get m.reverse public_key) [
  | none ↦ m
  | some old ↦ record m {
    reverse = remove_first public_key m.reverse;
    vanity = remove m.vanity old;
  }
]

unfoldable pub bind : AliasAllocator → Bytes → Bytes → AliasAllocator
bind m public_key lp = record m {
  vanity = insert m.vanity lp public_key;
  reverse = m.reverse ++ (public_key, lp) ∷ [];
}

-- What is done with a name that passed the checks.
unfoldable pub claim :
    AliasAllocator → Bytes → Bytes → Bytes → Result AliasError Bytes × AliasAllocator
unfolding drop_prior bind
claim m public_key local_part lp = elim (get m.vanity lp) [
  | some existing ↦
      if bytes_beq existing public_key then (ok (qualify m lp), m) else (err (taken local_part), m)
  | none ↦ (ok (qualify m lp), bind (drop_prior m public_key) public_key lp)
]

unfoldable pub allocate_vanity :
    AliasAllocator → Bytes → Bytes → Result AliasError Bytes × AliasAllocator
unfolding check_vanity claim
allocate_vanity m public_key local_part = elim (check_vanity m local_part) [
  | err e ↦ (err e, m)
  | ok lp ↦ claim m public_key local_part lp
]

unfoldable pub release_vanity : AliasAllocator → Bytes → Option Bytes × AliasAllocator
unfolding drop_prior
release_vanity m public_key = elim (get m.reverse public_key) [
  | none ↦ (none, m)
  | some lp ↦ (some (qualify m lp), drop_prior m public_key)
]

module _ (digest : Bytes → Bytes) where
  unfoldable pub key_fingerprint : Bytes → Bytes
  unfolding base32_lower
  key_fingerprint public_key = base32_lower (take 10 (digest public_key))

  unfoldable pub key_derived_localpart : Bytes → Bytes
  unfolding base32_lower
  key_derived_localpart public_key = 107 ∷ base32_lower (take 10 (digest public_key))

  abbrev pub name_or_derived : Option Bytes → Bytes → Bytes
  name_or_derived none public_key = key_derived_localpart public_key
  name_or_derived (some lp) public_key = lp

  unfoldable pub alias_for : AliasAllocator → Bytes → Bytes
  unfolding key_derived_localpart
  alias_for m public_key = qualify m (name_or_derived (get m.reverse public_key) public_key)

  -- A local part on the gateway's own domain.
  unfoldable pub resolve_local : AliasAllocator → Bytes → List Bytes → Option Bytes
  unfolding key_derived_localpart
  resolve_local m lp registered_keys = elim (get m.vanity lp) [
    | some k ↦ some k
    | none ↦ find (λ k. bytes_beq (key_derived_localpart k) lp) registered_keys
  ]

  unfoldable pub resolve : AliasAllocator → Bytes → List Bytes → Option Bytes
  unfolding trim to_ascii_lowercase rsplit_once resolve_local
  resolve m address registered_keys = elim (rsplit_once 64 (to_ascii_lowercase (trim address))) [
    | none ↦ none
    | some (lp, dom) ↦ if bytes_beq dom m.domain then resolve_local m lp registered_keys else none
  ]
