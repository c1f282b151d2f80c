-- ===== src/Billing/Settlement.antt =====
-- The in-memory settlement ledger of crates/broker-billing/src/settlement.rs, the fail-closed stake
-- rail of stake.rs and the monthly subscription of subscription.rs. An `i64` is its two's
-- complement word, so `amount as i64` is the same word; arithmetic is that of a release build.
pub mod Balance
pub mod Charges
use vulos_relay.Base.{
  ℕ, ◌+◌, ◌%◌, ◌^◌, Bool, true, false, Option, none, some, List, [], ◌∷◌, Bytes, bytes_eq, pair_eq,
  if◌then◌else◌,
}
use vulos_relay.Base.Dict.{Dict, get, insert}
use vulos_relay.Base.Words.{wrap_add, wrap_sub, signed_lt}
use vulos_relay.Base.Result.{Result, ok, err}

pub record SettlementReceipt : Type 0 where
  pub payer : Bytes
  pub amount : ℕ
  pub currency : Bytes
  pub tx_seq : ℕ

pub data LedgerError : Type 0 where
  insufficient_balance : (payer : Bytes) (balance amount : ℕ) (currency : Bytes) → LedgerError

pub record InMemoryLedger : Type 0 where
  pub balances : Dict (Bytes × Bytes) ℕ
  pub house : Dict Bytes ℕ
  pub next_tx_seq : ℕ

unfoldable pub new : InMemoryLedger
new = record { balances = []; house = []; next_tx_seq = 0 }

abbrev pub or_zero : Option ℕ → ℕ
or_zero none = 0
or_zero (some v) = v

unfoldable pub balance : InMemoryLedger → Bytes → Bytes → ℕ
balance l payer currency = or_zero (get l.balances (payer, currency))

unfoldable pub deposit : InMemoryLedger → Bytes → ℕ → Bytes → InMemoryLedger
deposit l payer amount currency = record l {
  balances =
      insert l.balances (payer, currency)
        (wrap_add (or_zero (get l.balances (payer, currency))) amount);
  house = insert l.house currency (wrap_sub (or_zero (get l.house currency)) amount);
}

unfoldable pub next_seq : InMemoryLedger → ℕ × InMemoryLedger
next_seq l = (l.next_tx_seq, record l { next_tx_seq = wrap_add l.next_tx_seq 1 })

unfoldable pub charge :
    InMemoryLedger → Bytes → ℕ → Bytes → Result LedgerError SettlementReceipt × InMemoryLedger
unfolding next_seq
charge l payer amount currency =
    let balance = or_zero (get l.balances (payer, currency)) in
    if signed_lt balance amount
    then (err (insufficient_balance payer balance amount currency), l)
    else (let (tx_seq, l') = next_seq (record l {
      balances = insert l.balances (payer, currency) (wrap_sub balance amount);
      house = insert l.house currency (wrap_add (or_zero (get l.house currency)) amount);
    }) in
        (ok (record { payer = payer; amount = amount; currency = currency; tx_seq = tx_seq }), l'))

-- The sum of the payers' balances in a currency.
unfoldable pub payer_sum : Bytes → Dict (Bytes × Bytes) ℕ → ℕ
payer_sum currency [] = 0
payer_sum currency ((k, v) ∷ d) =
    if bytes_eq.beq k.1 currency then v + payer_sum currency d else payer_sum currency d

unfoldable pub grand_total : InMemoryLedger → Bytes → ℕ
grand_total l currency = wrap_add (payer_sum currency l.balances) (or_zero (get l.house currency))

pub data NoStakeRail : Type 0 where
  no_stake_rail : NoStakeRail

unfoldable pub verify_stake : {E : Type 0} → NoStakeRail → Bytes → Bytes → ℕ → Result E Bool
verify_stake rail staker asset minimum = ok false

pub record Subscription : Type 0 where
  pub payer : Bytes
  pub monthly_amount : ℕ
  pub currency : Bytes
  pub active : Bool

abbrev pub subscribe : Bytes → ℕ → Bytes → Subscription
subscribe payer monthly_amount currency = record {
  payer = payer;
  monthly_amount = monthly_amount;
  currency = currency;
  active = true;
}

-- One period's charge over any rail.
unfoldable pub charge_period :
    {R E : Type 0}
    → (R → Bytes → ℕ → Bytes → Result E SettlementReceipt × R)
    → Subscription
    → R
    → Result E SettlementReceipt × R
charge_period rail_charge s rail = rail_charge rail s.payer s.monthly_amount s.currency
