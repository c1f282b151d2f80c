-- ===== src/Billing/Settlement/Charges.antt =====
-- What a charge does, for amounts that an `i64` has and for those that it has not.
use vulos_relay.Base.{
  ℕ, ◌+◌, ◌-◌, ◌^◌, ◌≤◌, ◌<◌, ◌≡◌, ◌⊎◌, refl, true, false, Bool-cases, inl, inr, arith, Bytes,
  bytes_eq, pair_eq, leb,
}
use vulos_relay.Base.Dict.{get-insert_self}
use vulos_relay.Base.Words.{signed_lt, wrap_sub}
use vulos_relay.Base.Result.{ok, err}
use vulos_relay.Billing.Settlement.{InMemoryLedger, insufficient_balance, balance, charge, next_seq}

new_balance :
    (l : InMemoryLedger) (payer currency : Bytes) (amount : ℕ)
    → signed_lt (balance l payer currency) amount ≡ false
    → balance (charge l payer amount currency).1 payer currency
      ≡ wrap_sub (balance l payer currency) amount
unfolding balance charge next_seq
new_balance l payer currency amount h =
    rw h (rw (get-insert_self l.balances (payer, currency) _) refl)

accepted :
    (l : InMemoryLedger) (payer currency : Bytes) (amount : ℕ)
    → signed_lt (balance l payer currency) amount ≡ false
    → (charge l payer amount currency).0
      ≡ ok (record { payer = payer; amount = amount; currency = currency; tx_seq = l.next_tx_seq })
unfolding balance charge next_seq
accepted l payer currency amount h = rw h refl

refused :
    (l : InMemoryLedger) (payer currency : Bytes) (amount : ℕ)
    → signed_lt (balance l payer currency) amount ≡ true
    → charge l payer amount currency
      ≡ (err (insufficient_balance payer (balance l payer currency) amount currency), l)
unfolding balance charge
refused l payer currency amount h = rw h refl

sufficient :
    (b amount : ℕ) → leb amount b ≡ true → amount < 2 ^ 63 → b < 2 ^ 63 → signed_lt b amount ≡ false
sufficient b amount q h hb = ground arith

insufficient :
    (b amount : ℕ) → leb amount b ≡ false → amount < 2 ^ 63 → b < 2 ^ 63 → signed_lt b amount ≡ true
insufficient b amount q h hb = ground arith

negative :
    (b amount : ℕ) → 2 ^ 63 ≤ amount → amount < 2 ^ 64 → b < 2 ^ 63 → signed_lt b amount ≡ false
negative b amount h h' hb = ground arith

-- A charge that an `i64` holds, against a balance that is not negative: it is refused and changes
-- nothing when the balance is below the amount, else it succeeds and takes exactly the amount.
charge_covered :
    (l : InMemoryLedger) (payer currency : Bytes) (amount : ℕ)
    → amount < 2 ^ 63
    → balance l payer currency < 2 ^ 63
    → ((balance l payer currency < amount)
        × (charge l payer amount currency
            ≡ (err (insufficient_balance payer (balance l payer currency) amount currency), l)))
      ⊎ ((amount ≤ balance l payer currency)
          × ((charge l payer amount currency).0
              ≡ ok (record {
                payer = payer;
                amount = amount;
                currency = currency;
                tx_seq = l.next_tx_seq;
              }))
          × (balance (charge l payer amount currency).1 payer currency + amount
              ≡ balance l payer currency))
charge_covered l payer currency amount h hb =
    elim (Bool-cases (leb amount (balance l payer currency))) [
      | inr q ↦ inl (
        ground arith,
        refused l payer currency amount (insufficient (balance l payer currency) amount q h hb),
      )
      | inl q ↦
          let e = sufficient (balance l payer currency) amount q h hb in
          inr (
            ground arith,
            accepted l payer currency amount e,
            rw (new_balance l payer currency amount e) (ground arith),
          )
    ]

-- An amount from 2⁶³ on is negative as an `i64`: the charge succeeds against any balance that is not
-- negative, and the balance's word becomes the balance and 2⁶⁴ less the amount. Below 2⁶³ that word
-- is a higher balance; else it is negative as an `i64`.
pub charge_wraps :
    (l : InMemoryLedger) (payer currency : Bytes) (amount : ℕ)
    → 2 ^ 63 ≤ amount
    → amount < 2 ^ 64
    → balance l payer currency < 2 ^ 63
    → ((charge l payer amount currency).0
        ≡ ok (record {
          payer = payer;
          amount = amount;
          currency = currency;
          tx_seq = l.next_tx_seq;
        }))
      × (balance (charge l payer amount currency).1 payer currency
          ≡ balance l payer currency + (2 ^ 64 - amount))
charge_wraps l payer currency amount h h' hb =
    let e = negative (balance l payer currency) amount h h' hb in
    (accepted l payer currency amount e, rw (new_balance l payer currency amount e) (ground arith))
