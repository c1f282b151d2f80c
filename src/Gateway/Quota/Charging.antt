-- ===== src/Gateway/Quota/Charging.antt =====
-- Charges against the caps, and against the meter's events, in crates/gateway/src/authz.rs.
use vulos_relay.Base.{
  ℕ, ◌≤◌, ◌≡◌, refl, ap, ◌∙◌, ◌⊎◌, inl, inr, false, not, Bool-cases, none, some, Option-cases,
  Bytes, bytes_eq, bytes_beq, bytes_beq_iff, ltb, ◌==◌, ◌&&◌, if◌then◌else◌, arith,
}
use vulos_relay.Base.Dict.{get, insert, get-insert}
use vulos_relay.Base.Words.{sat_add}
use vulos_relay.Base.Result.{Result, ok, err}
use vulos_relay.Gateway.Quota.{
  Quota, Usage, QuotaError, QuotaLedger, unregistered, message_cap_exceeded, volume_cap_exceeded,
  usage, charge_within, try_charge,
}

-- A usage that the caps allow.
abbrev pub Fits : Quota → Usage → Type 0
Fits quota u =
    ((quota.hard_cap_messages ≡ 0) ⊎ (u.messages ≤ quota.hard_cap_messages))
    × ((quota.hard_cap_bytes ≡ 0) ⊎ (u.bytes ≤ quota.hard_cap_bytes))

-- An account with one more message.
abbrev pub plus : Usage → ℕ → Usage
plus u msg_bytes = record { messages = sat_add u.messages 1; bytes = sat_add u.bytes msg_bytes }

usage-insert :
    (ledger : QuotaLedger) (account other : Bytes) (u : Usage)
    → usage (record ledger { used = insert ledger.used account u }) other
      ≡ (if bytes_beq account other then u else usage ledger other)
unfolding usage
usage-insert ledger account other u = ground (arith, get-insert ledger.used account other u)

usage-seen :
    (ledger : QuotaLedger) (account other : Bytes)
    → usage (record ledger { used = insert ledger.used account (usage ledger account) }) other
      ≡ usage ledger other
usage-seen ledger account other = elim (Bool-cases (bytes_beq account other)) [
  | inl q ↦
      usage-insert ledger account other (usage ledger account)
      ∙ rw q (ap (usage ledger) ((bytes_beq_iff account other).0 q))
  | inr q ↦ usage-insert ledger account other (usage ledger account) ∙ rw q refl
]

-- The outcomes of a charge of an account with a quota, and what the charge leaves of another
-- account's usage.
abbrev pub IsCharged :
    QuotaLedger → Bytes → Bytes → Quota → ℕ → Result QuotaError Usage × QuotaLedger → Type 0
IsCharged ledger account other quota msg_bytes p =
    ((p.0 ≡ ok (plus (usage ledger account) msg_bytes))
      × Fits quota (plus (usage ledger account) msg_bytes)
      × (usage p.1 other ≡ (
          if bytes_beq account other
          then plus (usage ledger account) msg_bytes
          else usage ledger other)))
    ⊎ (((p.0 ≡ err (message_cap_exceeded account quota.hard_cap_messages))
          ⊎ (p.0 ≡ err (volume_cap_exceeded account quota.hard_cap_bytes)))
        × (usage p.1 other ≡ usage ledger other))

cap_fits : (cap n : ℕ) → (not (cap == 0) && ltb cap n) ≡ false → (cap ≡ 0) ⊎ (n ≤ cap)
cap_fits cap n h = ground (arith, h)

charge_within-IsCharged :
    (ledger : QuotaLedger) (account other : Bytes) (quota : Quota) (msg_bytes : ℕ)
    → IsCharged ledger account other quota msg_bytes
        (charge_within ledger account quota (usage ledger account) msg_bytes)
unfolding charge_within
charge_within-IsCharged ledger account other quota msg_bytes =
    let next = plus (usage ledger account) msg_bytes in
    elim (Bool-cases
      (not (quota.hard_cap_messages == 0) && ltb quota.hard_cap_messages next.messages)) [
        | inl q ↦ rw (charge_within, q) (inr (inl refl, usage-seen ledger account other))
        | inr q ↦
            elim (Bool-cases
              (not (quota.hard_cap_bytes == 0) && ltb quota.hard_cap_bytes next.bytes)) [
                | inl v ↦ rw (charge_within, q, v) (inr (inr refl, usage-seen ledger account other))
                | inr v ↦
                    rw (charge_within, q, v)
                      (inl (
                        refl,
                        (
                          cap_fits quota.hard_cap_messages next.messages q,
                          cap_fits quota.hard_cap_bytes next.bytes v,
                        ),
                        usage-insert ledger account other next,
                      ))
              ]
      ]

charge_within-limits :
    (ledger : QuotaLedger) (account : Bytes) (quota : Quota) (cur : Usage) (msg_bytes : ℕ)
    → (charge_within ledger account quota cur msg_bytes).1.limits ≡ ledger.limits
unfolding charge_within
charge_within-limits ledger account quota cur msg_bytes = ground arith

pub try_charge-limits :
    (ledger : QuotaLedger) (account : Bytes) (msg_bytes : ℕ)
    → (try_charge ledger account msg_bytes).1.limits ≡ ledger.limits
unfolding try_charge
try_charge-limits ledger account msg_bytes = elim (Option-cases (get ledger.limits account)) [
  | inl q ↦ rw (try_charge, q) refl
  | inr (quota, q) ↦
      rw (try_charge, q)
        (charge_within-limits ledger account quota (usage ledger account) msg_bytes)
]

-- A charge either meets an account with no quota and leaves the ledger as it is; or the account has
-- a quota and the charge adds one message and its bytes to this account's usage, which the caps
-- allow; or a cap refuses it and no usage changes.
pub charge_outcome :
    (ledger : QuotaLedger) (account other : Bytes) (msg_bytes : ℕ)
    → ((get ledger.limits account ≡ none)
        × (try_charge ledger account msg_bytes ≡ (err (unregistered account), ledger)))
      ⊎ ((quota : Quota) × (get ledger.limits account ≡ some quota)
          × IsCharged ledger account other quota msg_bytes (try_charge ledger account msg_bytes))
unfolding try_charge
charge_outcome ledger account other msg_bytes = elim (Option-cases (get ledger.limits account)) [
  | inl q ↦ inl (q, rw (try_charge, q) refl)
  | inr (quota, q) ↦
      inr (
        quota,
        q,
        rw (try_charge, q) (charge_within-IsCharged ledger account other quota msg_bytes),
      )
]
