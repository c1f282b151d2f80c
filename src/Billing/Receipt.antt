-- ===== src/Billing/Receipt.antt =====
-- Usage receipts: `ReceiptLog` of crates/broker-billing/src/receipt.rs, and `debit_and_receipt` of
-- prepaid.rs. A signed receipt, its signing (with the CBOR encoding) and its verification are the
-- dependency's, and parameters.
pub mod Issuing
use vulos_relay.Base.{ℕ, Option, none, some, List, [], ◌∷◌, ◌++◌, Bytes}
use vulos_relay.Base.Words.{wrap_add}
use vulos_relay.Base.Result.{Result, ok, err}
use vulos_relay.Billing.Kind.{ResourceKind}
use vulos_relay.Billing.Tariff.{Bill, LineItem}
use vulos_relay.Billing.Prepaid.{PrepaidError, DebitRecord, PrepaidLedger, debit}

pub record BilledOperation : Type 0 where
  pub payer : Bytes
  pub kind : ResourceKind
  pub metered_units : ℕ
  pub billed_units : ℕ
  pub amount : ℕ
  pub currency : Bytes
  pub sequence : ℕ

pub record ReceiptLog (UsageReceipt : Type 0) : Type 0 where
  pub receipts : List UsageReceipt
  pub next_sequence : ℕ

unfoldable pub billed : Bytes → Bytes → LineItem → ℕ → BilledOperation
billed payer currency item sequence = record {
  payer = payer;
  kind = item.kind;
  metered_units = item.metered_units;
  billed_units = item.billed_units;
  amount = item.amount;
  currency = currency;
  sequence = sequence;
}

module _ {UsageReceipt : Type 0} where
  unfoldable pub new : ReceiptLog UsageReceipt
  new = record { receipts = []; next_sequence = 0 }

  module _ (sign : BilledOperation → UsageReceipt) where
    -- The loop over the line items.
    unfoldable pub issue_items :
        ReceiptLog UsageReceipt
        → Bytes
        → Bytes
        → List LineItem
        → List UsageReceipt × ReceiptLog UsageReceipt
    issue_items log payer currency [] = ([], log)
    issue_items log payer currency (item ∷ items) =
        let receipt = sign (billed payer currency item log.next_sequence) in
        let rest =
          issue_items
            (record {
              receipts = log.receipts ++ (receipt ∷ []);
              next_sequence = wrap_add log.next_sequence 1;
            })
            payer currency items in
        (receipt ∷ rest.0, rest.1)

    unfoldable pub issue_for_bill :
        ReceiptLog UsageReceipt → Bytes → Bill → List UsageReceipt × ReceiptLog UsageReceipt
    unfolding issue_items
    issue_for_bill log payer bill = issue_items log payer bill.currency bill.line_items

    unfoldable pub issue :
        ReceiptLog UsageReceipt → BilledOperation → UsageReceipt × ReceiptLog UsageReceipt
    issue log op = (sign op, record log { receipts = log.receipts ++ (sign op ∷ []) })

    unfoldable pub debit_and_receipt :
        PrepaidLedger
        → ReceiptLog UsageReceipt
        → Bytes
        → Bill
        → Result PrepaidError (DebitRecord × List UsageReceipt)
          × PrepaidLedger
          × ReceiptLog UsageReceipt
    debit_and_receipt l log payer bill =
        let (result, l') = debit l payer bill in
        elim result [
          | err e ↦ (err e, l', log)
          | ok r ↦
              let (receipts, log') = issue_for_bill log payer bill in (ok (r, receipts), l', log')
        ]

  -- The first error, if there is one.
  unfoldable pub verify_all :
      {E : Type 0} → (UsageReceipt → Option E) → List UsageReceipt → Option E
  verify_all verify [] = none
  verify_all verify (r ∷ rs) = elim (verify r) [ some e ↦ some e | none ↦ verify_all verify rs ]
