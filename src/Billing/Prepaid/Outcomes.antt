-- ===== src/Billing/Prepaid/Outcomes.antt =====
-- What a debit and a refund do on each branch, and what the billing state says about the next debit.
use vulos_relay.Base.{
  ℕ, ◌-◌, ◌≤◌, ◌<◌, ◌≡◌, ◌≢◌, ◌↔◌, [], ◌∷◌, ◌++◌, arith, Bytes, bytes_eq, bytes_beq_iff, true,
  false, ◌⊎◌, inl, inr, Bool-cases, refl, if◌then◌else◌, dec_lt,
}
use vulos_relay.Base.Dict.{get-insert}
use vulos_relay.Base.Result.{ok, err}
use vulos_relay.Billing.Tariff.{Bill}
use vulos_relay.Billing.Prepaid.{
  PrepaidLedger, DebitRecord, RefundRecord, balance, debit, refund, state, exhausted,
  currency_mismatch, credit_exhausted, refund_exceeds_balance,
}

-- Every balance after `amount` left the payer's.
abbrev pub Lowered : PrepaidLedger → PrepaidLedger → Bytes → ℕ → Type 0
Lowered l l' payer amount =
    (q : Bytes)
    → balance l' q ≡ (if bytes_eq.beq payer q then balance l payer - amount else balance l q)

abbrev pub debit_record : PrepaidLedger → Bytes → Bill → DebitRecord
debit_record l payer bill = record {
  payer = payer;
  amount = bill.amount;
  currency = l.currency;
  tx_seq = l.next_tx_seq;
}

abbrev pub refund_record : PrepaidLedger → Bytes → ℕ → RefundRecord
refund_record l payer amount = record {
  payer = payer;
  amount = amount;
  currency = l.currency;
  tx_seq = l.next_tx_seq;
}

debit_mismatch :
    (l : PrepaidLedger) (payer : Bytes) (bill : Bill)
    → bytes_eq.beq bill.currency l.currency ≡ false
    → debit l payer bill ≡ (err (currency_mismatch bill.currency l.currency), l)
unfolding debit
debit_mismatch l payer bill e = ground arith

debit_short :
    (l : PrepaidLedger) (payer : Bytes) (bill : Bill)
    → bytes_eq.beq bill.currency l.currency ≡ true
    → balance l payer < bill.amount
    → debit l payer bill
      ≡ (err (credit_exhausted payer (balance l payer) bill.amount l.currency), l)
unfolding debit
debit_short l payer bill e lt = ground arith

debit_covered :
    (l : PrepaidLedger) (payer : Bytes) (bill : Bill)
    → bytes_eq.beq bill.currency l.currency ≡ true
    → bill.amount ≤ balance l payer
    → let (result, l') = debit l payer bill in
      (result ≡ ok (debit_record l payer bill))
      × (l' ≡ record l {
        balances = l'.balances;
        next_tx_seq = l'.next_tx_seq;
        debits = l.debits ++ (debit_record l payer bill ∷ []);
      })
      × Lowered l l' payer bill.amount
unfolding debit
debit_covered l payer bill e le = (
  ground arith,
  ground arith,
  λ q. ground (arith, get-insert l.balances payer q (balance l payer - bill.amount)),
)

-- A debit has one of three outcomes. If the bill's currency differs from the ledger's it is refused
-- and the ledger stays as it was; so too if the balance does not cover the bill. Otherwise it is
-- recorded under the next sequence number at the end of the debits, takes the amount off the payer's
-- balance and off no other, and changes nothing else but the sequence counter.
pub debit_outcome :
    (l : PrepaidLedger) (payer : Bytes) (bill : Bill)
    → ((bill.currency ≢ l.currency)
        × (debit l payer bill ≡ (err (currency_mismatch bill.currency l.currency), l)))
      ⊎ (((bill.currency ≡ l.currency)
            × (balance l payer < bill.amount)
            × (debit l payer bill
                ≡ (err (credit_exhausted payer (balance l payer) bill.amount l.currency), l)))
          ⊎ ((bill.currency ≡ l.currency)
              × (bill.amount ≤ balance l payer)
              × (let (result, l') = debit l payer bill in
                  (result ≡ ok (debit_record l payer bill))
                  × (l' ≡ record l {
                    balances = l'.balances;
                    next_tx_seq = l'.next_tx_seq;
                    debits = l.debits ++ (debit_record l payer bill ∷ []);
                  })
                  × Lowered l l' payer bill.amount)))
debit_outcome l payer bill = elim (Bool-cases (bytes_eq.beq bill.currency l.currency)) [
  | inr e ↦
      inl (ground (arith, bytes_beq_iff bill.currency l.currency), debit_mismatch l payer bill e)
  | inl e ↦
      let same = (bytes_beq_iff bill.currency l.currency).0 e in
      inr (elim (dec_lt (balance l payer) bill.amount) [
        | yes short ↦ inl (same, short, debit_short l payer bill e short)
        | no covered ↦ inr (same, omega arith, debit_covered l payer bill e (omega arith))
      ])
]

-- A refund of more than the balance is refused and the ledger stays as it was; any other is recorded
-- under the next sequence number at the end of the refunds, takes the amount off the payer's balance
-- and off no other, and changes nothing else but the sequence counter.
refund_outcome :
    (l : PrepaidLedger) (payer : Bytes) (amount : ℕ)
    → ((balance l payer < amount)
        × (refund l payer amount
            ≡ (err (refund_exceeds_balance payer amount (balance l payer)), l)))
      ⊎ ((amount ≤ balance l payer)
          × (let (result, l') = refund l payer amount in
              (result ≡ ok (refund_record l payer amount))
              × (l' ≡ record l {
                balances = l'.balances;
                next_tx_seq = l'.next_tx_seq;
                refunds = l.refunds ++ (refund_record l payer amount ∷ []);
              })
              × Lowered l l' payer amount))
unfolding refund
refund_outcome l payer amount = elim (dec_lt (balance l payer) amount) [
  | yes short ↦ inl (short, ground arith)
  | no covered ↦ inr (
    omega arith,
    (
      ground arith,
      ground arith,
      λ q. ground (arith, get-insert l.balances payer q (balance l payer - amount)),
    ),
  )
]

-- A bill of one unit in the ledger's currency.
abbrev one_unit : PrepaidLedger → Bill
one_unit l = record { currency = l.currency; amount = 1; line_items = [] }

-- A payer's state is `exhausted` exactly when even a bill of one unit in the ledger's currency is
-- refused for want of credit.
state-exhausted_iff :
    (l : PrepaidLedger) (payer : Bytes)
    → (state l payer ≡ exhausted) ↔ (
        (debit l payer (one_unit l)).0
        ≡ err (credit_exhausted payer (balance l payer) 1 l.currency))
unfolding state
state-exhausted_iff l payer = (
  λ e. ground (arith, debit_short l payer (one_unit l) ((bytes_beq_iff _ _).1 refl)),
  λ refused. ground (arith, debit_covered l payer (one_unit l) ((bytes_beq_iff _ _).1 refl)),
)
