-- ===== src/Tests/Ledger.antt =====
-- The prepaid and the settlement ledger on small histories.
use vulos_relay.Base.{
  ◌+◌, ◌-◌, ◌^◌, ◌≤◌, ◌<◌, ◌≡◌, ◌≢◌, ◌⊎◌, refl, some, List, [], ◌∷◌, ◌++◌, arith, Bytes, codes,
  bytes_eq, bytes_beq, pair_eq,
}
use vulos_relay.Base.Dict.{get, insert}
use vulos_relay.Base.Result.{ok, err}
use vulos_relay.Billing.Tariff.{Bill}
use vulos_relay.Billing.Prepaid
use vulos_relay.Billing.Prepaid.{
  TopUpRecord, PrepaidLedger, balance, account, account_state, state, credit, next_seq, top_up,
  withdraw, debit, refund, exhausted, currency_mismatch, credit_exhausted, refund_exceeds_balance,
}
use vulos_relay.Billing.Prepaid.History.{
  Call, tops_up, debits, refunds, after, run, credited, debited, refunded,
}
use vulos_relay.Billing.Prepaid.Conservation.{run_conserves}
use vulos_relay.Billing.Prepaid.Replay.{IsRecorded, run-new_total, top_up_replay}
use vulos_relay.Billing.Prepaid.Outcomes.{Lowered, debit_record, debit_outcome}
use vulos_relay.Billing.Settlement
use vulos_relay.Billing.Settlement.Balance
use vulos_relay.Billing.Settlement.Balance.{run_nets_zero}
use vulos_relay.Billing.Settlement.Charges.{charge_wraps}

abbrev alice : Bytes
alice = codes "alice"

abbrev bob : Bytes
bob = codes "bob"

abbrev usd : Bytes
usd = codes "USD"

abbrev ref₁ : Bytes
ref₁ = codes "r1"

abbrev bill_30 : Bill
bill_30 = record { currency = usd; amount = 30; line_items = [] }

abbrev calls : List Call
calls = tops_up alice 100 ref₁ ∷ debits alice bill_30 ∷ refunds alice 20 ∷ []

abbrev topped_up : TopUpRecord
topped_up = record { payer = alice; amount = 100; currency = usd; funding_ref = ref₁; tx_seq = 0 }

abbrev final : PrepaidLedger
final = record {
  currency = usd;
  low_balance_threshold = 10;
  balances = (alice, 50) ∷ [];
  top_ups = topped_up ∷ [];
  debits = record { payer = alice; amount = 30; currency = usd; tx_seq = 1 } ∷ [];
  refunds = record { payer = alice; amount = 20; currency = usd; tx_seq = 2 } ∷ [];
  next_tx_seq = 3;
  credited_refs = ref₁ ∷ [];
}

abbrev fresh : PrepaidLedger
fresh = record {
  currency = usd;
  low_balance_threshold = 10;
  balances = [];
  top_ups = [];
  debits = [];
  refunds = [];
  next_tx_seq = 0;
  credited_refs = [];
}

run_calls : run (Prepaid.new usd 10) calls ≡ some final
unfolding run after Prepaid.new top_up credit next_seq debit withdraw refund balance get insert
    bytes_beq
run_calls = refl

run_conserves_example :
    balance final alice + debited alice final.debits + refunded alice final.refunds
    ≡ credited alice final.top_ups
unfolding bytes_beq
run_conserves_example = run_conserves usd 10 calls final alice run_calls (omega arith)

run-new_total_example :
    (l : PrepaidLedger) × (run (Prepaid.new usd 10) calls ≡ some l) × IsRecorded l
run-new_total_example = run-new_total usd 10 calls

fresh-IsRecorded : IsRecorded fresh
fresh-IsRecorded fref = refl

abbrev credited_once : PrepaidLedger
credited_once = record fresh {
  balances = (alice, 100) ∷ [];
  top_ups = topped_up ∷ [];
  next_tx_seq = 1;
  credited_refs = ref₁ ∷ [];
}

first_top_up : top_up fresh alice 100 ref₁ ≡ some (topped_up, credited_once)
unfolding top_up credit next_seq balance get insert bytes_beq
first_top_up = refl

run_rest : run credited_once (debits alice bill_30 ∷ refunds alice 20 ∷ []) ≡ some final
unfolding run after debit withdraw next_seq refund balance get insert bytes_beq
run_rest = refl

top_up_replay_example : top_up final bob 7 ref₁ ≡ some (topped_up, final)
top_up_replay_example =
    top_up_replay fresh credited_once final alice bob 100 7 ref₁ topped_up
      (debits alice bill_30 ∷ refunds alice 20 ∷ []) fresh-IsRecorded first_top_up run_rest

debit_outcome_example :
    ((usd ≢ usd) × (debit final alice bill_30 ≡ (err (currency_mismatch usd usd), final)))
    ⊎ (((usd ≡ usd)
          × (balance final alice < 30)
          × (debit final alice bill_30
              ≡ (err (credit_exhausted alice (balance final alice) 30 usd), final)))
        ⊎ ((usd ≡ usd)
            × (30 ≤ balance final alice)
            × (let (result, l') = debit final alice bill_30 in
                (result ≡ ok (debit_record final alice bill_30))
                × (l' ≡ record final {
                  balances = l'.balances;
                  next_tx_seq = l'.next_tx_seq;
                  debits = final.debits ++ (debit_record final alice bill_30 ∷ []);
                })
                × Lowered final l' alice 30)))
debit_outcome_example = debit_outcome final alice bill_30

run_nets_zero_example :
    Settlement.grand_total
      (Balance.run Settlement.new
        (Balance.deposits alice 100 usd ∷ Balance.charges alice 30 usd ∷ []))
      usd
    ≡ 0
run_nets_zero_example =
    run_nets_zero usd (Balance.deposits alice 100 usd ∷ Balance.charges alice 30 usd ∷ [])

abbrev funded : Settlement.InMemoryLedger
funded = record {
  balances = ((alice, usd), 100) ∷ [];
  house = (usd, 2 ^ 64 - 100) ∷ [];
  next_tx_seq = 0;
}

below_cap : Settlement.balance funded alice usd < 2 ^ 63
unfolding Settlement.balance get bytes_beq
below_cap = omega arith

charge_wraps_example :
    ((Settlement.charge funded alice (2 ^ 64 - 5) usd).0
      ≡ ok (record { payer = alice; amount = 2 ^ 64 - 5; currency = usd; tx_seq = 0 }))
    × (Settlement.balance (Settlement.charge funded alice (2 ^ 64 - 5) usd).1 alice usd
        ≡ Settlement.balance funded alice usd + (2 ^ 64 - (2 ^ 64 - 5)))
charge_wraps_example =
    charge_wraps funded alice usd (2 ^ 64 - 5) (omega arith) (omega arith) below_cap
