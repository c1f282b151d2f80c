-- ===== src/Gateway/Alias.antt =====
-- The random-mode alias store of crates/gateway/src/alias_map.rs. The bytes that the operating
-- system's generator draws are an argument: the draws of `mint_row`, one for each round of its loop.
pub mod Token
pub mod Minting
pub mod Lifecycle
use vulos_relay.Base.{
  ℕ, ◌+◌, Bool, true, false, Option, none, some, List, [], ◌∷◌, Bytes, bytes_eq, leb, ◌==◌, ◌||◌,
  if◌then◌else◌, length,
}
use vulos_relay.Base.Dict.{Dict, get, insert}
use vulos_relay.Base.Words.{sat_add}
use vulos_relay.Base.Result.{Result, ok, err}
use vulos_relay.Gateway.Alias.Token.{base32_lower}

pub data AliasTarget : Type 0 where
  native : (local domain : Bytes) → AliasTarget
  identity : Bytes → AliasTarget

pub data GatewayAliasError : Type 0 where
  unmapped : GatewayAliasError

unfoldable pub code : GatewayAliasError → ℕ
code unmapped = 0x0605

pub record AliasRow : Type 0 where
  pub target : AliasTarget
  pub correspondent : Option Bytes
  pub expires_at_ms : Option ℕ
  pub one_time : Bool
  pub burned : Bool

abbrev pub past : Option ℕ → ℕ → Bool
past none now_ms = false
past (some exp) now_ms = leb exp now_ms

unfoldable pub is_expired : AliasRow → ℕ → Bool
is_expired row now_ms = past row.expires_at_ms now_ms

pub record GatewayAliasMap : Type 0 where
  pub rows : Dict Bytes AliasRow

unfoldable pub new : GatewayAliasMap
new = record { rows = [] }

abbrev is_some : Option AliasRow → Bool
is_some none = false
is_some (some row) = true

-- The loop of `mint_row`: the first drawn token that is not in use, the map with the row under it,
-- and the draws that are left; `none` when the draws run out.
unfoldable pub place :
    GatewayAliasMap → AliasRow → List Bytes → Option (Bytes × GatewayAliasMap × List Bytes)
place m row [] = none
place m row (raw ∷ draws) =
    let token = base32_lower raw in
    let rest = place m row draws in
    if is_some (get m.rows token)
    then rest
    else some (token, record { rows = insert m.rows token row }, draws)

abbrev pub expiry : Option ℕ → ℕ → Option ℕ
expiry none now_ms = none
expiry (some ttl) now_ms = some (sat_add now_ms ttl)

unfoldable pub mint_row :
    GatewayAliasMap
    → AliasTarget
    → Option Bytes
    → Option ℕ
    → Bool
    → ℕ
    → List Bytes
    → Option (Bytes × GatewayAliasMap × List Bytes)
unfolding place
mint_row m target correspondent ttl_ms one_time now_ms = place m (record {
  target = target;
  correspondent = correspondent;
  expires_at_ms = expiry ttl_ms now_ms;
  one_time = one_time;
  burned = false;
})

unfoldable pub mint :
    GatewayAliasMap → AliasTarget → List Bytes → Option (Bytes × GatewayAliasMap × List Bytes)
unfolding mint_row
mint m target = mint_row m target none none false 0

unfoldable pub mint_with :
    GatewayAliasMap
    → AliasTarget
    → Option Bytes
    → Option ℕ
    → Bool
    → ℕ
    → List Bytes
    → Option (Bytes × GatewayAliasMap × List Bytes)
unfolding mint_row
mint_with = mint_row

unfoldable pub resolve :
    GatewayAliasMap → Bytes → ℕ → Result GatewayAliasError AliasTarget × GatewayAliasMap
unfolding is_expired
resolve m alias now_ms = elim (get m.rows alias) [
  | none ↦ (err unmapped, m)
  | some row ↦ if row.burned || is_expired row now_ms then (err unmapped, m) else (
    ok row.target,
    if row.one_time
        then record { rows = insert m.rows alias (record row { burned = true }) }
        else m,
  )
]

unfoldable pub correspondent_of : GatewayAliasMap → Bytes → ℕ → Option Bytes
unfolding is_expired
correspondent_of m alias now_ms = elim (get m.rows alias) [
  | none ↦ none
  | some row ↦ if row.burned || is_expired row now_ms then none else row.correspondent
]

unfoldable pub burn : GatewayAliasMap → Bytes → Bool × GatewayAliasMap
burn m alias = elim (get m.rows alias) [
  | none ↦ (false, m)
  | some row ↦ (true, record { rows = insert m.rows alias (record row { burned = true }) })
]

unfoldable pub len : GatewayAliasMap → ℕ
len m = length m.rows

unfoldable pub is_empty : GatewayAliasMap → Bool
is_empty m = length m.rows == 0
