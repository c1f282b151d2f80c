-- ===== src/Gateway/Alias/Lifecycle.antt =====
-- The end of an alias: one that is burned, consumed or expired never resolves again.
use vulos_relay.Base.{
  ℕ, ◌≤◌, ◌≡◌, refl, ◌∙◌, Bool, true, false, Bool-cases, Option, none, some, Option-cases, inl, inr,
  List, [], ◌∷◌, arith, Bytes, bytes_eq, bytes_beq_iff, ◌||◌,
}
use vulos_relay.Base.Dict.{get, insert, get-insert, get-insert_self}
use vulos_relay.Base.Result.{err}
use vulos_relay.Gateway.Alias.{
  AliasTarget, AliasRow, GatewayAliasMap, unmapped, past, is_expired, mint_row, resolve, burn,
}
use vulos_relay.Gateway.Alias.Minting.{Places, mint_row_lem}

-- The alias has a row, which is burned or past its expiry at `now`.
abbrev pub IsDead : ℕ → GatewayAliasMap → Bytes → Type 0
IsDead now m alias =
    (row : AliasRow) × (get m.rows alias ≡ some row)
    × ((row.burned || past row.expires_at_ms now) ≡ true)

-- The calls of the store.
pub data Call : Type 0 where
  mints :
      (target : AliasTarget) (correspondent : Option Bytes) (ttl_ms : Option ℕ) (one_time : Bool)
      (now_ms : ℕ) (draws : List Bytes)
      → Call
  resolves : (alias : Bytes) (now_ms : ℕ) → Call
  burns : (alias : Bytes) → Call

abbrev map_after : GatewayAliasMap → Option (Bytes × GatewayAliasMap × List Bytes) → GatewayAliasMap
map_after m none = m
map_after m (some (token, m', draws)) = m'

unfoldable pub after : GatewayAliasMap → Call → GatewayAliasMap
after m (mints target correspondent ttl_ms one_time now_ms draws) =
    map_after m (mint_row m target correspondent ttl_ms one_time now_ms draws)
after m (resolves alias now_ms) = (resolve m alias now_ms).1
after m (burns alias) = (burn m alias).1

unfoldable pub run : GatewayAliasMap → List Call → GatewayAliasMap
run m [] = m
run m (c ∷ cs) = run (after m c) cs

insert-IsDead :
    (m : GatewayAliasMap) (now : ℕ) (alias other : Bytes) (row : AliasRow)
    → row.burned ≡ true
    → IsDead now m alias
    → IsDead now (record { rows = insert m.rows other row }) alias
insert-IsDead m now alias other row h (old, q, d) = elim (Bool-cases (bytes_eq.beq other alias)) [
  | inl e ↦ (row, get-insert m.rows other alias row ∙ rw e refl, rw h refl)
  | inr e ↦ (old, get-insert m.rows other alias row ∙ rw e q, d)
]

placed-IsDead :
    (m : GatewayAliasMap) (row : AliasRow) (now : ℕ) (alias : Bytes)
    (o : Option (Bytes × GatewayAliasMap × List Bytes))
    → Places m row o
    → IsDead now m alias
    → IsDead now (map_after m o) alias
placed-IsDead m row now alias none p d = d
placed-IsDead m row now alias (some (token, m', draws)) p (old, q, d) =
    (old, p.1 alias ∙ ground (arith, bytes_beq_iff token alias, p.0, q), d)

resolve-IsDead :
    (m : GatewayAliasMap) (now now_ms : ℕ) (alias other : Bytes)
    → IsDead now m alias
    → IsDead now (resolve m other now_ms).1 alias
unfolding resolve is_expired
resolve-IsDead m now now_ms alias other d = elim (Option-cases (get m.rows other)) [
  | inl q ↦ rw (resolve, q) d
  | inr (row, q) ↦ elim (Bool-cases (row.burned || past row.expires_at_ms now_ms)) [
    | inl e ↦ rw (resolve, q, e) d
    | inr e ↦ elim (Bool-cases row.one_time) [
      | inl o ↦ rw (resolve, q, e, o) (insert-IsDead m now alias other _ refl d)
      | inr o ↦ rw (resolve, q, e, o) d
    ]
  ]
]

burn-IsDead :
    (m : GatewayAliasMap) (now : ℕ) (alias other : Bytes)
    → IsDead now m alias
    → IsDead now (burn m other).1 alias
unfolding burn
burn-IsDead m now alias other d = elim (Option-cases (get m.rows other)) [
  | inl q ↦ rw (burn, q) d
  | inr (row, q) ↦ rw (burn, q) (insert-IsDead m now alias other _ refl d)
]

after-IsDead :
    (m : GatewayAliasMap) (now : ℕ) (alias : Bytes) (c : Call)
    → IsDead now m alias
    → IsDead now (after m c) alias
unfolding after
after-IsDead m now alias (mints target correspondent ttl_ms one_time now_ms draws) d =
    placed-IsDead m _ now alias _ (mint_row_lem m target correspondent ttl_ms one_time now_ms draws)
      d
after-IsDead m now alias (resolves other now_ms) d = resolve-IsDead m now now_ms alias other d
after-IsDead m now alias (burns other) d = burn-IsDead m now alias other d

run-IsDead :
    (m : GatewayAliasMap) (now : ℕ) (alias : Bytes) (calls : List Call)
    → IsDead now m alias
    → IsDead now (run m calls) alias
unfolding run
run-IsDead m now alias [] d = d
run-IsDead m now alias (c ∷ calls) d =
    run-IsDead (after m c) now alias calls (after-IsDead m now alias c d)

past-later :
    (row : AliasRow) (now later : ℕ)
    → now ≤ later
    → (row.burned || past row.expires_at_ms now) ≡ true
    → (row.burned || past row.expires_at_ms later) ≡ true
past-later row now later h d = ground arith

IsDead-resolve :
    (m : GatewayAliasMap) (now later : ℕ) (alias : Bytes)
    → now ≤ later
    → IsDead now m alias
    → (resolve m alias later).0 ≡ err unmapped
unfolding resolve is_expired
IsDead-resolve m now later alias h (row, q, d) = rw (resolve, q, past-later row now later h d) refl

burnt :
    (m : GatewayAliasMap) (now : ℕ) (alias : Bytes)
    → (burn m alias).0 ≡ true
    → IsDead now (burn m alias).1 alias
unfolding burn
burnt m now alias = elim (Option-cases (get m.rows alias)) [
  | inl q ↦ rw (burn, q) λ h. ground (arith, h)
  | inr (row, q) ↦
      rw (burn, q) λ h. (record row { burned = true }, get-insert_self m.rows alias _, refl)
]

is_one_time :
    (row : AliasRow) (now : ℕ)
    → (row.burned || past row.expires_at_ms now) ≡ false
    → (row.one_time || past row.expires_at_ms now) ≡ true
    → row.one_time ≡ true
is_one_time row now e h = ground arith

consumed :
    (m : GatewayAliasMap) (now : ℕ) (alias : Bytes) (row : AliasRow)
    → get m.rows alias ≡ some row
    → (row.one_time || past row.expires_at_ms now) ≡ true
    → IsDead now (resolve m alias now).1 alias
unfolding resolve is_expired
consumed m now alias row q h = elim (Bool-cases (row.burned || past row.expires_at_ms now)) [
  | inl e ↦ rw (resolve, q, e) (row, q, e)
  | inr e ↦
      rw (resolve, q, e, is_one_time row now e h)
        (record row { one_time = true; burned = true }, get-insert_self m.rows alias _, refl)
]

-- An alias that was burned does not resolve, whatever calls came since.
burned_forever :
    (m : GatewayAliasMap) (alias : Bytes) (calls : List Call) (later : ℕ)
    → (burn m alias).0 ≡ true
    → (resolve (run (burn m alias).1 calls) alias later).0 ≡ err unmapped
burned_forever m alias calls later h =
    IsDead-resolve (run (burn m alias).1 calls) 0 later alias (omega arith)
      (run-IsDead (burn m alias).1 0 alias calls (burnt m 0 alias h))

-- An alias that resolves at `now` as a one-time alias does not resolve again, whatever calls came
-- since; nor does one that is past its expiry, at that time or later.
pub one_time_once :
    (m : GatewayAliasMap) (alias : Bytes) (row : AliasRow) (now later : ℕ) (calls : List Call)
    → get m.rows alias ≡ some row
    → (row.one_time || past row.expires_at_ms now) ≡ true
    → now ≤ later
    → (resolve (run (resolve m alias now).1 calls) alias later).0 ≡ err unmapped
one_time_once m alias row now later calls q h le =
    IsDead-resolve (run (resolve m alias now).1 calls) now later alias le
      (run-IsDead (resolve m alias now).1 now alias calls (consumed m now alias row q h))
