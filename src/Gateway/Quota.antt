-- ===== src/Gateway/Quota.antt =====
-- The quota ledger of crates/gateway/src/authz.rs, and the metering seam and the counting meter of
-- crates/gateway/src/provenance.rs. A byte count and a message count are `u64`. The digest of a
-- message, `ContentId::of`, is of a crate that is not in the repository and a parameter.
pub mod Charging
pub mod Relaying
use vulos_relay.Base.{
  ℕ, ◌+◌, Bool, not, Option, none, some, List, [], ◌∷◌, ◌++◌, Bytes, bytes_eq, ltb, ◌==◌, ◌&&◌,
  ◌||◌, if◌then◌else◌, length,
}
use vulos_relay.Base.Dict.{Dict, get, insert}
use vulos_relay.Base.Words.{sat_add}
use vulos_relay.Base.Result.{Result, ok, err}

pub data BridgeDirection : Type 0 where
  inbound outbound : BridgeDirection

pub record MeterEvent : Type 0 where
  pub direction : BridgeDirection
  pub account : Bytes
  pub domain : Bytes
  pub msg_digest : Bytes
  pub at : ℕ

pub record CountingMeter : Type 0 where
  pub events : List MeterEvent

unfoldable pub count : CountingMeter → ℕ
count meter = length meter.events

-- `CountingMeter::record`
unfoldable pub record_event : CountingMeter → MeterEvent → CountingMeter
record_event meter event = record { events = meter.events ++ event ∷ [] }

pub record Quota : Type 0 where
  pub free_messages : ℕ
  pub hard_cap_messages : ℕ
  pub free_bytes : ℕ
  pub hard_cap_bytes : ℕ

-- `Quota::messages`
unfoldable pub messages_only : ℕ → ℕ → Quota
messages_only free cap = record {
  free_messages = free;
  hard_cap_messages = cap;
  free_bytes = 0;
  hard_cap_bytes = 0;
}

pub record Usage : Type 0 where
  pub messages : ℕ
  pub bytes : ℕ

unfoldable pub over_free_allowance : Usage → Quota → Bool
over_free_allowance u quota =
    ltb quota.free_messages u.messages
    || (not (quota.free_bytes == 0) && ltb quota.free_bytes u.bytes)

pub data QuotaError : Type 0 where
  unregistered : Bytes → QuotaError
  message_cap_exceeded : Bytes → ℕ → QuotaError
  volume_cap_exceeded : Bytes → ℕ → QuotaError

pub record QuotaLedger : Type 0 where
  pub limits : Dict Bytes Quota
  pub used : Dict Bytes Usage

unfoldable pub new : QuotaLedger
new = record { limits = []; used = [] }

-- `set_quota` and `upsert_quota`
unfoldable pub upsert_quota : QuotaLedger → Bytes → Quota → QuotaLedger
upsert_quota ledger account quota = record ledger { limits = insert ledger.limits account quota }

abbrev pub or_default : Option Usage → Usage
or_default none = record { messages = 0; bytes = 0 }
or_default (some u) = u

unfoldable pub usage : QuotaLedger → Bytes → Usage
usage ledger account = or_default (get ledger.used account)

-- The charge of an account that has a quota; `entry(..).or_default()` leaves an entry of zeroes even
-- when the charge is refused.
unfoldable pub charge_within :
    QuotaLedger → Bytes → Quota → Usage → ℕ → Result QuotaError Usage × QuotaLedger
charge_within ledger account quota cur msg_bytes =
    let seen = record ledger { used = insert ledger.used account cur } in
    let next : Usage = record {
      messages = sat_add cur.messages 1;
      bytes = sat_add cur.bytes msg_bytes;
    } in
    if not (quota.hard_cap_messages == 0) && ltb quota.hard_cap_messages (sat_add cur.messages 1)
    then (err (message_cap_exceeded account quota.hard_cap_messages), seen)
    else if not (quota.hard_cap_bytes == 0)
        && ltb quota.hard_cap_bytes (sat_add cur.bytes msg_bytes)
    then (err (volume_cap_exceeded account quota.hard_cap_bytes), seen)
    else (ok next, record ledger { used = insert ledger.used account next })

unfoldable pub try_charge : QuotaLedger → Bytes → ℕ → Result QuotaError Usage × QuotaLedger
unfolding charge_within usage
try_charge ledger account msg_bytes = elim (get ledger.limits account) [
  | none ↦ (err (unregistered account), ledger)
  | some quota ↦ charge_within ledger account quota (usage ledger account) msg_bytes
]

module _ (digest : Bytes → Bytes) where
  unfoldable pub charge_and_meter :
      QuotaLedger
      → CountingMeter
      → Bytes
      → Bytes
      → BridgeDirection
      → Bytes
      → ℕ
      → Result QuotaError Usage × QuotaLedger × CountingMeter
  unfolding try_charge record_event
  charge_and_meter ledger meter account domain direction rfc5322_bytes at =
      let (r, ledger₁) = try_charge ledger account (length rfc5322_bytes) in
      elim r [
        | err e ↦ (err e, ledger₁, meter)
        | ok u ↦ (
          ok u,
          ledger₁,
          record_event meter (record {
            direction = direction;
            account = account;
            domain = domain;
            msg_digest = digest rfc5322_bytes;
            at = at;
          }),
        )
      ]
