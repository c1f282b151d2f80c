-- ===== src/Billing/Prepaid/History.antt =====
-- Histories of calls on a prepaid ledger, and the totals that its audit trails record.
use vulos_relay.Base.{ℕ, ◌+◌, Option, none, some, List, [], ◌∷◌, Bytes, bytes_eq, if◌then◌else◌}
use vulos_relay.Billing.Tariff.{Bill}
use vulos_relay.Billing.Prepaid.{
  TopUpRecord, DebitRecord, RefundRecord, PrepaidLedger, top_up, debit, refund,
}

pub data Call : Type 0 where
  tops_up : (payer : Bytes) (amount : ℕ) (funding_ref : Bytes) → Call
  debits : (payer : Bytes) (bill : Bill) → Call
  refunds : (payer : Bytes) (amount : ℕ) → Call

-- The ledger after a call; `none` if the call panics.
unfoldable pub after : PrepaidLedger → Call → Option PrepaidLedger
after l (tops_up payer amount fref) = elim (top_up l payer amount fref) [
  | none ↦ none
  | some (r, l') ↦ some l'
]
after l (debits payer bill) = some (debit l payer bill).1
after l (refunds payer amount) = some (refund l payer amount).1

unfoldable pub run : PrepaidLedger → List Call → Option PrepaidLedger
run l [] = some l
run l (c ∷ cs) = elim (after l c) [ none ↦ none | some l' ↦ run l' cs ]

-- What the records say was credited to, debited from and refunded to a payer.
abbrev pub credited : Bytes → List TopUpRecord → ℕ
credited p [] = 0
credited p (r ∷ rs) = (if bytes_eq.beq r.payer p then r.amount else 0) + credited p rs

abbrev pub debited : Bytes → List DebitRecord → ℕ
debited p [] = 0
debited p (r ∷ rs) = (if bytes_eq.beq r.payer p then r.amount else 0) + debited p rs

abbrev pub refunded : Bytes → List RefundRecord → ℕ
refunded p [] = 0
refunded p (r ∷ rs) = (if bytes_eq.beq r.payer p then r.amount else 0) + refunded p rs
