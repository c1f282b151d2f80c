-- ===== src/Gateway/Guard.antt =====
-- The outbound sender guard of crates/gateway/src/outbound_guard.rs. The clock is an argument of each
-- call; a call holds the mutex from its test to its record, so it is one step.
pub mod Windows
pub mod History
pub mod Retry
pub mod Backoff
use vulos_relay.Base.{
  ℕ, ◌+◌, ◌-◌, ◌*◌, ◌%◌, ◌^◌, min, max, Bool, true, false, Option, none, some, List, [], ◌∷◌, ◌++◌,
  Bytes, bytes_eq, codes, ltb, leb, if◌then◌else◌, length, keep, any, is_blank,
}
use vulos_relay.Base.Dict.{Dict, get, insert}
use vulos_relay.Base.Words.{u64_max, u32_max, sat_add, sat_mul, wrap_add}

pub data SenderVerdict : Type 0 where
  allow : SenderVerdict
  throttle : (retry_after_ms : ℕ) (reason : Bytes) → SenderVerdict
  refuse : (reason : Bytes) → SenderVerdict

unfoldable pub is_allow : SenderVerdict → Bool
is_allow allow = true
is_allow _ = false

pub record SenderState : Type 0 where
  pub rate_hits : List ℕ
  pub volume_hits : List ℕ
  pub strikes : ℕ
  pub backoff_until : ℕ

abbrev pub no_sends : SenderState
no_sends = record { rate_hits = []; volume_hits = []; strikes = 0; backoff_until = 0 }

pub record OutboundSenderGuard : Type 0 where
  pub rate_limit : ℕ
  pub rate_window_ms : ℕ
  pub volume_cap : ℕ
  pub volume_window_ms : ℕ
  pub backoff_base_ms : ℕ
  pub backoff_max_shift : ℕ
  pub registered : Option (List Bytes)
  pub state : Dict Bytes SenderState

-- `new` and `with_clock`
unfoldable pub new : OutboundSenderGuard
new = record {
  rate_limit = 20;
  rate_window_ms = 60_000;
  volume_cap = 500;
  volume_window_ms = 24 * 3_600_000;
  backoff_base_ms = 300_000;
  backoff_max_shift = 3;
  registered = none;
  state = [];
}

unfoldable pub with_rate_limit : OutboundSenderGuard → ℕ → ℕ → OutboundSenderGuard
with_rate_limit g limit window_ms = record g { rate_limit = limit; rate_window_ms = window_ms }

unfoldable pub with_volume_cap : OutboundSenderGuard → ℕ → ℕ → OutboundSenderGuard
with_volume_cap g cap_limit window_ms = record g {
  volume_cap = cap_limit;
  volume_window_ms = window_ms;
}

unfoldable pub with_backoff : OutboundSenderGuard → ℕ → ℕ → OutboundSenderGuard
with_backoff g base_ms max_shift = record g {
  backoff_base_ms = base_ms;
  backoff_max_shift = max_shift;
}

unfoldable pub require_registered : OutboundSenderGuard → List Bytes → OutboundSenderGuard
require_registered g accounts = record g { registered = some accounts }

abbrev in_set : Option (List Bytes) → Bytes → Bool
in_set none account = false
in_set (some set) account = any (λ a. bytes_eq.beq a account) set

unfoldable pub is_authenticated : OutboundSenderGuard → Bytes → Bool
is_authenticated g account = if is_blank account then false else in_set g.registered account

abbrev or_default : Option SenderState → SenderState
or_default none = no_sends
or_default (some st) = st

-- The account's entry, or a new one.
unfoldable pub sender : OutboundSenderGuard → Bytes → SenderState
sender g account = or_default (get g.state account)

-- How long until the oldest hit has left the window.
unfoldable pub retry_after : ℕ → ℕ → List ℕ → ℕ
retry_after window now [] = window
retry_after window now (oldest ∷ hits) = wrap_add oldest window - now

abbrev pub reason_denied : Bytes
reason_denied = codes "5.7.1 outbound relay denied: sender is not an authenticated account"

abbrev pub reason_backoff : Bytes
reason_backoff = codes "4.7.1 sender in reputation backoff after prior delivery failures"

abbrev pub reason_volume : Bytes
reason_volume = codes "5.7.1 outbound volume cap reached for this sender; relay refused"

abbrev pub reason_rate : Bytes
reason_rate = codes "4.7.1 per-sender outbound rate limit exceeded; slow down"

-- `retain` of the hits from `start` on.
abbrev pub recent : ℕ → List ℕ → List ℕ
recent start = keep (λ t. leb start t)

-- The tests on an authenticated account's entry, and the entry after them.
unfoldable pub decide_send : OutboundSenderGuard → ℕ → SenderState → SenderVerdict × SenderState
unfolding retry_after
decide_send g now st =
    if ltb now st.backoff_until
    then (throttle (st.backoff_until - now) reason_backoff, st)
    else (let volume_hits = recent (now - g.volume_window_ms) st.volume_hits in
        let st₁ = record st { volume_hits = volume_hits } in
        if leb g.volume_cap (length volume_hits % 2 ^ 32)
        then (refuse reason_volume, st₁)
        else (let rate_hits = recent (now - g.rate_window_ms) st.rate_hits in
            let st₂ = record st₁ { rate_hits = rate_hits } in
            if leb g.rate_limit (length rate_hits % 2 ^ 32)
            then (throttle (max (retry_after g.rate_window_ms now rate_hits) 1) reason_rate, st₂)
            else (
              allow,
              record st₂ {
                rate_hits = rate_hits ++ (now ∷ []);
                volume_hits = volume_hits ++ (now ∷ []);
              },
            )))

unfoldable pub authorize_send :
    OutboundSenderGuard → ℕ → Bytes → SenderVerdict × OutboundSenderGuard
authorize_send g now account =
    if is_authenticated g account
    then (let (verdict, st) = decide_send g now (sender g account) in
        (verdict, record g { state = insert g.state account st }))
    else (refuse reason_denied, g)

-- `1u64.checked_shl(shift).unwrap_or(u64::MAX)`
unfoldable pub backoff_factor : ℕ → ℕ
backoff_factor shift = if ltb shift 64 then 2 ^ shift else u64_max

-- `u32::saturating_add`
abbrev pub one_more : ℕ → ℕ
one_more strikes = if leb (strikes + 1) u32_max then strikes + 1 else u32_max

unfoldable pub report_outcome : OutboundSenderGuard → ℕ → Bytes → Bool → OutboundSenderGuard
report_outcome g now account true =
    let st = sender g account in
    record g { state = insert g.state account (record st { strikes = st.strikes - 1 }) }
report_outcome g now account false =
    let st = sender g account in
    let strikes = one_more st.strikes in
    let factor = backoff_factor (min (strikes - 1) g.backoff_max_shift) in
    record g {
      state = insert g.state account (record st {
        strikes = strikes;
        backoff_until = sat_add now (sat_mul g.backoff_base_ms factor);
      });
    }

unfoldable pub strikes : OutboundSenderGuard → Bytes → ℕ
strikes g account = (sender g account).strikes
