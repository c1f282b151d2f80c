-- ===== src/Billing/Receipt/Issuing.antt =====
-- What is receipted: exactly the line items of bills that were paid.
use vulos_relay.Base.{
  ℕ, suc, ◌+◌, ◌^◌, ◌<◌, ◌≡◌, ◌⊎◌, inl, inr, refl, List, [], ◌∷◌, ◌++◌, map, append_assoc,
  append-nil, arith, Bytes, length,
}
use vulos_relay.Base.Words.{wrap_add}
use vulos_relay.Base.Result.{ok, err, Result-cases}
use vulos_relay.Billing.Tariff.{Bill, LineItem}
use vulos_relay.Billing.Prepaid.{PrepaidError, PrepaidLedger, DebitRecord, debit}
use vulos_relay.Billing.Receipt.{
  BilledOperation, ReceiptLog, billed, issue_items, issue_for_bill, debit_and_receipt,
}

-- One operation for each item, numbered on from `n`.
abbrev pub operations : Bytes → Bytes → ℕ → List LineItem → List BilledOperation
operations payer currency n [] = []
operations payer currency n (item ∷ items) =
    billed payer currency item n ∷ operations payer currency (n + 1) items

add_nothing : (n : ℕ) → n + 0 ≡ n
add_nothing n = omega arith

next_fits : (n k : ℕ) → n + suc k < 2 ^ 64 → wrap_add n 1 ≡ n + 1
next_fits n k h = omega arith

add_next : (n k : ℕ) → n + 1 + k ≡ n + suc k
add_next n k = omega arith

module _ {UsageReceipt : Type 0} (sign : BilledOperation → UsageReceipt) where
  issue_items_lem :
      (log : ReceiptLog UsageReceipt) (payer currency : Bytes) (items : List LineItem)
      → log.next_sequence + length items < 2 ^ 64
      → issue_items sign log payer currency items ≡ (
        map sign (operations payer currency log.next_sequence items),
        record {
          receipts = log.receipts ++ map sign (operations payer currency log.next_sequence items);
          next_sequence = log.next_sequence + length items;
        },
      )
  unfolding issue_items
  issue_items_lem log payer currency [] h =
      rw (append-nil log.receipts, add_nothing log.next_sequence) refl
  issue_items_lem log payer currency (item ∷ items) h =
      let receipt = sign (billed payer currency item log.next_sequence) in
      let log₁ : ReceiptLog UsageReceipt = record {
        receipts = log.receipts ++ (receipt ∷ []);
        next_sequence = log.next_sequence + 1;
      } in
      rw
        (
          next_fits log.next_sequence (length items) h,
          issue_items_lem log₁ payer currency items (omega arith),
          append_assoc log.receipts (receipt ∷ [])
              (map sign (operations payer currency (log.next_sequence + 1) items)),
          add_next log.next_sequence (length items),
        )
        refl

  -- A bill that cannot be debited gives the debit's error, no receipt, and leaves the log as it was.
  -- One that is debited gives one signed receipt for each line item, in order, numbered on from the
  -- log's counter, and these are added at the end of the log. The numbers are to fit 64 bits.
  pub debit_and_receipt_outcome :
      (l : PrepaidLedger) (log : ReceiptLog UsageReceipt) (payer : Bytes) (bill : Bill)
      → log.next_sequence + length bill.line_items < 2 ^ 64
      → ((e : PrepaidError) × ((debit l payer bill).0 ≡ err e)
          × (debit_and_receipt sign l log payer bill ≡ (err e, (debit l payer bill).1, log)))
        ⊎ ((r : DebitRecord) × ((debit l payer bill).0 ≡ ok r)
            × (debit_and_receipt sign l log payer bill ≡ (
              ok (r, map sign (operations payer bill.currency log.next_sequence bill.line_items)),
              (debit l payer bill).1,
              record {
                receipts =
                    log.receipts
                    ++ map sign (operations payer bill.currency log.next_sequence bill.line_items);
                next_sequence = log.next_sequence + length bill.line_items;
              },
            )))
  unfolding debit_and_receipt issue_for_bill
  debit_and_receipt_outcome l log payer bill h = elim (Result-cases (debit l payer bill).0) [
    | inl (e, q) ↦ inl (e, q, rw (debit_and_receipt, q) refl)
    | inr (r, q) ↦ inr (
      r,
      q,
      rw (debit_and_receipt, q, issue_items_lem log payer bill.currency bill.line_items h) refl,
    )
  ]
