-- ===== src/Tests/Receipts.antt =====
-- A bill that is debited and receipted.
use vulos_relay.Base.{ℕ, ◌+◌, ◌≡◌, ◌⊎◌, [], ◌∷◌, ◌++◌, map, arith, Bytes, codes, length}
use vulos_relay.Base.Result.{ok, err}
use vulos_relay.Billing.Kind.{messages}
use vulos_relay.Billing.Tariff.{Bill, LineItem}
use vulos_relay.Billing.Prepaid.{PrepaidError, PrepaidLedger, DebitRecord, debit}
use vulos_relay.Billing.Receipt.{BilledOperation, ReceiptLog, debit_and_receipt}
use vulos_relay.Billing.Receipt.Issuing.{operations, debit_and_receipt_outcome}

abbrev alice : Bytes
alice = codes "alice"

abbrev usd : Bytes
usd = codes "USD"

abbrev ledger : PrepaidLedger
ledger = record {
  currency = usd;
  low_balance_threshold = 10;
  balances = (alice, 50) ∷ [];
  top_ups = [];
  debits = [];
  refunds = [];
  next_tx_seq = 0;
  credited_refs = [];
}

abbrev item : LineItem
item = record {
  kind = messages;
  metered_units = 7;
  free_units_applied = 2;
  billed_units = 5;
  unit_price = 3;
  amount = 15;
}

abbrev bill : Bill
bill = record { currency = usd; amount = 15; line_items = item ∷ [] }

-- A receipt stands for its sequence number and amount.
abbrev sign : BilledOperation → ℕ × ℕ
sign op = (op.sequence, op.amount)

abbrev log : ReceiptLog (ℕ × ℕ)
log = record { receipts = (0, 9) ∷ []; next_sequence = 1 }

debit_and_receipt_outcome_example :
    ((e : PrepaidError) × ((debit ledger alice bill).0 ≡ err e)
      × (debit_and_receipt sign ledger log alice bill ≡ (err e, (debit ledger alice bill).1, log)))
    ⊎ ((r : DebitRecord) × ((debit ledger alice bill).0 ≡ ok r)
        × (debit_and_receipt sign ledger log alice bill ≡ (
          ok (r, map sign (operations alice usd 1 (item ∷ []))),
          (debit ledger alice bill).1,
          record {
            receipts = ((0, 9) ∷ []) ++ map sign (operations alice usd 1 (item ∷ []));
            next_sequence = 1 + length (item ∷ []);
          },
        )))
debit_and_receipt_outcome_example =
    debit_and_receipt_outcome sign ledger log alice bill (omega arith)
