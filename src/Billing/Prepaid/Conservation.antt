-- ===== src/Billing/Prepaid/Conservation.antt =====
-- Conservation: the balance is what was credited less what was debited and refunded.
use vulos_relay.Base.{
  ℕ, ◌+◌, ◌-◌, ◌≤◌, ◌≡◌, subst, some, List, [], ◌∷◌, ◌++◌, arith, Bytes, bytes_eq, bytes_beq_iff,
  if◌then◌else◌, Option-cases, inl, inr,
}
use vulos_relay.Base.Dict.{get, get-insert}
use vulos_relay.Base.Words.{u64_max, sat_add}
use vulos_relay.Billing.Tariff.{Bill}
use vulos_relay.Billing.Prepaid.{
  TopUpRecord, DebitRecord, RefundRecord, PrepaidLedger, new, balance, credit, top_up, debit,
  refund,
}
use vulos_relay.Billing.Prepaid.History.{
  Call, tops_up, debits, refunds, after, run, credited, debited, refunded,
}

-- Nothing is spent that was not credited, and as long as the credits of a payer fit a u64 (so that
-- no saturating addition lost any) the balance is exactly what is left of them.
abbrev pub IsConserved : Bytes → PrepaidLedger → Type 0
IsConserved p l =
    (balance l p + debited p l.debits + refunded p l.refunds ≤ credited p l.top_ups)
    × (credited p l.top_ups ≤ u64_max
        → balance l p + debited p l.debits + refunded p l.refunds ≡ credited p l.top_ups)

credited-append :
    (p : Bytes) (xs : List TopUpRecord) (r : TopUpRecord)
    → credited p (xs ++ (r ∷ [])) ≡ credited p xs + (if bytes_eq.beq r.payer p then r.amount else 0)
credited-append p [] r = omega arith
credited-append p (x ∷ xs) r = omega (arith, credited-append p xs r)

debited-append :
    (p : Bytes) (xs : List DebitRecord) (r : DebitRecord)
    → debited p (xs ++ (r ∷ [])) ≡ debited p xs + (if bytes_eq.beq r.payer p then r.amount else 0)
debited-append p [] r = omega arith
debited-append p (x ∷ xs) r = omega (arith, debited-append p xs r)

refunded-append :
    (p : Bytes) (xs : List RefundRecord) (r : RefundRecord)
    → refunded p (xs ++ (r ∷ [])) ≡ refunded p xs + (if bytes_eq.beq r.payer p then r.amount else 0)
refunded-append p [] r = omega arith
refunded-append p (x ∷ xs) r = omega (arith, refunded-append p xs r)

credit-IsConserved :
    (p : Bytes) (l : PrepaidLedger) (payer : Bytes) (amount : ℕ) (fref : Bytes)
    → IsConserved p l
    → IsConserved p (credit l payer amount fref).1
unfolding credit
credit-IsConserved p l payer amount fref h = ground (
  arith,
  bytes_beq_iff payer p,
  get-insert l.balances payer p (sat_add (balance l payer) amount),
  credited-append p l.top_ups (credit l payer amount fref).0,
)

debit-IsConserved :
    (p : Bytes) (l : PrepaidLedger) (payer : Bytes) (bill : Bill)
    → IsConserved p l
    → IsConserved p (debit l payer bill).1
unfolding debit
debit-IsConserved p l payer bill h = ground (
  arith,
  bytes_beq_iff payer p,
  get-insert l.balances payer p (balance l payer - bill.amount),
  debited-append p l.debits (record {
    payer = payer;
    amount = bill.amount;
    currency = l.currency;
    tx_seq = l.next_tx_seq;
  }),
)

refund-IsConserved :
    (p : Bytes) (l : PrepaidLedger) (payer : Bytes) (amount : ℕ)
    → IsConserved p l
    → IsConserved p (refund l payer amount).1
unfolding refund
refund-IsConserved p l payer amount h = ground (
  arith,
  bytes_beq_iff payer p,
  get-insert l.balances payer p (balance l payer - amount),
  refunded-append p l.refunds
      (record { payer = payer; amount = amount; currency = l.currency; tx_seq = l.next_tx_seq }),
)

top_up-IsConserved :
    (p : Bytes) (l : PrepaidLedger) (payer : Bytes) (amount : ℕ) (fref : Bytes) (r : TopUpRecord)
    (l' : PrepaidLedger)
    → top_up l payer amount fref ≡ some (r, l')
    → IsConserved p l
    → IsConserved p l'
unfolding top_up
top_up-IsConserved p l payer amount fref r l' e h =
    ground (arith, credit-IsConserved p l payer amount fref h)

after-IsConserved :
    (p : Bytes) (c : Call) (l l' : PrepaidLedger)
    → after l c ≡ some l'
    → IsConserved p l
    → IsConserved p l'
unfolding after
after-IsConserved p (tops_up payer amount fref) l l' e h =
    elim (Option-cases (top_up l payer amount fref)) [
      | inl q ↦ ground (arith, q)
      | inr ((r, m), q) ↦
          let same : m ≡ l' = ground (arith, q) in
          subst (IsConserved p) same (top_up-IsConserved p l payer amount fref r m q h)
    ]
after-IsConserved p (debits payer bill) l l' e h =
    subst (IsConserved p) (ground arith) (debit-IsConserved p l payer bill h)
after-IsConserved p (refunds payer amount) l l' e h =
    subst (IsConserved p) (ground arith) (refund-IsConserved p l payer amount h)

run-IsConserved :
    (p : Bytes) (cs : List Call) (l l' : PrepaidLedger)
    → run l cs ≡ some l'
    → IsConserved p l
    → IsConserved p l'
unfolding run
run-IsConserved p [] l l' e h = subst (IsConserved p) (ground arith) h
run-IsConserved p (c ∷ cs) l l' e h = elim (Option-cases (after l c)) [
  | inl q ↦ ground (arith, q)
  | inr (m, q) ↦ run-IsConserved p cs m l' (ground (arith, q)) (after-IsConserved p c l m q h)
]

new-IsConserved : (p currency : Bytes) (threshold : ℕ) → IsConserved p (new currency threshold)
unfolding new balance get
new-IsConserved p currency threshold = omega arith

-- After any history of calls on a new ledger that does not panic, a payer's balance together with
-- all that was debited from and refunded to the payer is at most what the payer's top-ups credited.
run_never_overspends :
    (currency : Bytes) (threshold : ℕ) (cs : List Call) (l : PrepaidLedger) (p : Bytes)
    → run (new currency threshold) cs ≡ some l
    → balance l p + debited p l.debits + refunded p l.refunds ≤ credited p l.top_ups
run_never_overspends currency threshold cs l p e =
    (run-IsConserved p cs _ l e (new-IsConserved p currency threshold)).0

-- After any history of calls on a new ledger that does not panic, if the credits of a payer's
-- top-ups together fit a u64, then the balance and all that was debited and refunded add up to
-- exactly these credits.
pub run_conserves :
    (currency : Bytes) (threshold : ℕ) (cs : List Call) (l : PrepaidLedger) (p : Bytes)
    → run (new currency threshold) cs ≡ some l
    → credited p l.top_ups ≤ u64_max
    → balance l p + debited p l.debits + refunded p l.refunds ≡ credited p l.top_ups
run_conserves currency threshold cs l p e fits =
    (run-IsConserved p cs _ l e (new-IsConserved p currency threshold)).1 fits
