-- ===== src/Tests/Sending.antt =====
-- The outbound guard and the alias store on small histories.
use vulos_relay.Base.{
  ℕ, ◌+◌, ◌-◌, ◌≤◌, ◌<◌, ◌≡◌, ◌≢◌, refl, min, true, false, none, some, List, [], ◌∷◌, arith, Bytes,
  bytes_eq, bytes_beq, codes, is_blank, length,
}
use vulos_relay.Base.Dict.{get, insert}
use vulos_relay.Base.Words.{sat_add, sat_mul}
use vulos_relay.Base.Result.{err}
use vulos_relay.Gateway.Guard
use vulos_relay.Gateway.Guard.{
  OutboundSenderGuard, SenderState, no_sends, throttle, reason_backoff, reason_rate, is_allow,
  recent, is_authenticated, sender, decide_send, authorize_send, backoff_factor, report_outcome,
  strikes, require_registered, with_rate_limit,
}
use vulos_relay.Gateway.Guard.History
use vulos_relay.Gateway.Guard.History.{sent, sends_bounded}
use vulos_relay.Gateway.Guard.Retry.{retry_too_early}
use vulos_relay.Gateway.Alias.{
  AliasTarget, identity, AliasRow, GatewayAliasMap, unmapped, mint_row, place, resolve, burn,
}
use vulos_relay.Gateway.Alias.Token.{base32_lower}
use vulos_relay.Gateway.Alias.Lifecycle
use vulos_relay.Gateway.Alias.Lifecycle.{one_time_once}

abbrev a : Bytes
a = 97 ∷ []

abbrev b : Bytes
b = 98 ∷ []

abbrev guard : OutboundSenderGuard
guard = record {
  rate_limit = 1;
  rate_window_ms = 60_000;
  volume_cap = 500;
  volume_window_ms = 86_400_000;
  backoff_base_ms = 300_000;
  backoff_max_shift = 3;
  registered = some (a ∷ b ∷ []);
  state = [];
}

-- The guard that the builder makes.
built : with_rate_limit (require_registered Guard.new (a ∷ b ∷ [])) 1 60_000 ≡ guard
unfolding with_rate_limit require_registered Guard.new
built = refl

abbrev calls : List (ℕ × History.Call)
calls =
    (1000, History.authorizes a)
    ∷ (2000, History.authorizes a)
    ∷ (3000, History.reports b false)
    ∷ (61_001, History.authorizes a)
    ∷ []

sent_twice : sent guard calls a ≡ 1000 ∷ 61_001 ∷ []
unfolding sent History.sends History.after authorize_send decide_send is_authenticated is_allow
    sender report_outcome get insert bytes_beq is_blank
sent_twice = refl

sends_bounded_example :
    (length (recent (61_001 - 60_000) (sent guard calls a)) ≤ 1)
    × (length (recent (61_001 - 86_400_000) (sent guard calls a)) ≤ 500)
sends_bounded_example =
    sends_bounded guard 61_001 calls a (omega arith) (omega arith) refl
      (omega arith, (omega arith, (omega arith, (omega arith, omega arith))))

abbrev at_limit : SenderState
at_limit = record no_sends { rate_hits = 1000 ∷ []; volume_hits = 1000 ∷ [] }

retry_too_early_example :
    ((decide_send guard 2000 at_limit).0 ≡ throttle (1000 + 60_000 - 2000) reason_rate)
    × (is_allow (decide_send guard (1000 + 60_000) (decide_send guard 2000 at_limit).1).0 ≡ false)
retry_too_early_example =
    retry_too_early guard 2000 1000 [] at_limit refl refl refl (omega arith) (omega arith)
      (omega arith) (omega arith) (omega arith) (omega arith) (omega arith)

a-authenticated : is_authenticated guard a ≡ true
unfolding is_authenticated is_blank bytes_beq
a-authenticated = refl

no_strikes : strikes guard a ≡ 0
unfolding strikes sender get
no_strikes = refl

soon : 5000 < sat_add 1000 (sat_mul 300_000 (backoff_factor (min (strikes guard a) 3)))
unfolding backoff_factor
soon = rw no_strikes (omega arith)

a_b : a ≢ b
a_b = ground arith

abbrev target : AliasTarget
target = identity (1 ∷ 2 ∷ [])

-- The token of the byte 0, and that of the byte 8.
abbrev t₀ : Bytes
t₀ = codes "aa"

abbrev t₈ : Bytes
t₈ = codes "ba"

abbrev row : AliasRow
row = record {
  target = target;
  correspondent = none;
  expires_at_ms = some 1500;
  one_time = true;
  burned = false;
}

abbrev one_row : GatewayAliasMap
one_row = record { rows = (t₀, row) ∷ [] }

abbrev two_rows : GatewayAliasMap
two_rows = record { rows = (t₀, row) ∷ (t₈, row) ∷ [] }

-- The first draw collides.
minted :
    mint_row one_row target none (some 500) true 1000 ((0 ∷ []) ∷ (8 ∷ []) ∷ [])
    ≡ some (t₈, two_rows, [])
unfolding mint_row place get insert bytes_beq base32_lower
minted = refl

burned : (burn one_row t₀).0 ≡ true
unfolding burn get bytes_beq
burned = refl

here : get one_row.rows t₀ ≡ some row
unfolding get bytes_beq
here = refl

one_time_once_example :
    (resolve (Lifecycle.run (resolve one_row t₀ 1200).1 (Lifecycle.burns t₈ ∷ [])) t₀ 1300).0
    ≡ err unmapped
one_time_once_example =
    one_time_once one_row t₀ row 1200 1300 (Lifecycle.burns t₈ ∷ []) here refl (omega arith)
