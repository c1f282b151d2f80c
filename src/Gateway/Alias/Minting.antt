-- ===== src/Gateway/Alias/Minting.antt =====
-- What minting does: it takes a token that is not in use, which then resolves to what it was minted
-- for.
use vulos_relay.Base.{
  ℕ, ◌≡◌, ◌≢◌, refl, sym, subst, ◌∙◌, Bool, false, Option, none, some, Option-cases, inl, inr, List,
  [], ◌∷◌, arith, Bytes, bytes_eq, beq_self, beq_ne, if◌then◌else◌,
}
use vulos_relay.Base.Dict.{get, get-insert}
use vulos_relay.Base.Result.{ok, err}
use vulos_relay.Gateway.Alias.Token.{base32_lower}
use vulos_relay.Gateway.Alias.{
  AliasTarget, AliasRow, GatewayAliasMap, unmapped, past, is_expired, place, expiry, mint_row,
  resolve,
}

-- What `place` gives: a token that was not in use and is now, every other entry as it was.
abbrev pub Places :
    GatewayAliasMap → AliasRow → Option (Bytes × GatewayAliasMap × List Bytes) → Type 0
Places m row none = Unit
Places m row (some (token, m', draws)) =
    (get m.rows token ≡ none)
    × ((alias : Bytes)
        → get m'.rows alias ≡ (if bytes_eq.beq token alias then some row else get m.rows alias))

place-Places :
    (m : GatewayAliasMap) (row : AliasRow) (draws : List Bytes) → Places m row (place m row draws)
unfolding place
place-Places m row [] = tt
place-Places m row (raw ∷ draws) = elim (Option-cases (get m.rows (base32_lower raw))) [
  | inl q ↦ rw q (q, λ alias. get-insert m.rows (base32_lower raw) alias row)
  | inr (old, q) ↦ rw q (place-Places m row draws)
]

pub mint_row_lem :
    (m : GatewayAliasMap) (target : AliasTarget) (correspondent : Option Bytes) (ttl_ms : Option ℕ)
    (one_time : Bool) (now_ms : ℕ) (draws : List Bytes)
    → Places m
        (record {
          target = target;
          correspondent = correspondent;
          expires_at_ms = expiry ttl_ms now_ms;
          one_time = one_time;
          burned = false;
        })
        (mint_row m target correspondent ttl_ms one_time now_ms draws)
unfolding mint_row
mint_row_lem m target correspondent ttl_ms one_time now_ms draws = place-Places m _ draws

placed-here :
    (m m' : GatewayAliasMap) (row : AliasRow) (token : Bytes) (left : List Bytes)
    → Places m row (some (token, m', left))
    → get m'.rows token ≡ some row
placed-here m m' row token left p = p.1 token ∙ rw (beq_self token) refl

-- A minted alias resolves to its target until its lifetime is over, and not from then on.
minted_resolves :
    (m m' : GatewayAliasMap) (target : AliasTarget) (correspondent : Option Bytes)
    (ttl_ms : Option ℕ) (one_time : Bool) (now_ms later : ℕ) (draws left : List Bytes)
    (token : Bytes)
    → mint_row m target correspondent ttl_ms one_time now_ms draws ≡ some (token, m', left)
    → (resolve m' token later).0
      ≡ (if past (expiry ttl_ms now_ms) later then err unmapped else ok target)
unfolding resolve is_expired
minted_resolves m m' target correspondent ttl_ms one_time now_ms later draws left token e =
    let p =
      subst (Places m _) e (mint_row_lem m target correspondent ttl_ms one_time now_ms draws) in
    let here = placed-here m m' _ token left p in rw (resolve, here) ground arith

-- Minting takes a token that had no row, and changes no entry but that of the token.
mint_clobbers_nothing :
    (m m' : GatewayAliasMap) (target : AliasTarget) (correspondent : Option Bytes)
    (ttl_ms : Option ℕ) (one_time : Bool) (now_ms : ℕ) (draws left : List Bytes)
    (token other : Bytes)
    → mint_row m target correspondent ttl_ms one_time now_ms draws ≡ some (token, m', left)
    → other ≢ token
    → (get m.rows token ≡ none) × (get m'.rows other ≡ get m.rows other)
mint_clobbers_nothing m m' target correspondent ttl_ms one_time now_ms draws left token other e ne =
    let p =
      subst (Places m _) e (mint_row_lem m target correspondent ttl_ms one_time now_ms draws) in
    (p.0, p.1 other ∙ rw (beq_ne token other (λ q. ne (sym q))) refl)
