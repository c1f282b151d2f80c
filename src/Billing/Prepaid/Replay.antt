-- ===== src/Billing/Prepaid/Replay.antt =====
-- A funding reference is credited at most once, and `top_up` never panics.
use vulos_relay.Base.{
  ℕ, ◌≡◌, refl, sym, ◌∙◌, Bool, Bool-cases, true, none, some, List, [], ◌∷◌, ◌++◌, arith, Bytes,
  bytes_eq, bytes_beq_iff, if◌then◌else◌, Option-cases, inl, inr, any, find, any-append,
  find-append_found, find-append_missing, false,
}
use vulos_relay.Billing.Tariff.{Bill}
use vulos_relay.Billing.Prepaid.{
  TopUpRecord, PrepaidLedger, new, has_ref, credit, top_up, debit, refund,
}
use vulos_relay.Billing.Prepaid.History.{Call, tops_up, debits, refunds, after, run}

abbrev is_credited : Bytes → List Bytes → Bool
is_credited fref = any (λ r. bytes_eq.beq r fref)

-- The references that count as credited are those of the top-up records.
abbrev pub IsRecorded : PrepaidLedger → Type 0
IsRecorded l = (fref : Bytes) → is_credited fref l.credited_refs ≡ any (has_ref fref) l.top_ups

find-any :
    (fref : Bytes) (rs : List TopUpRecord)
    → any (has_ref fref) rs ≡ true
    → (r : TopUpRecord) × (find (has_ref fref) rs ≡ some r)
find-any fref [] h = cc
find-any fref (x ∷ rs) h = elim (Bool-cases (has_ref fref x)) [
  | inl e ↦ (x, rw e)
  | inr e ↦ rw e (find-any fref rs (rw e at h))
]

any-append_one :
    (p : TopUpRecord → Bool) (xs : List TopUpRecord) (r : TopUpRecord)
    → any p (xs ++ (r ∷ [])) ≡ (if p r then true else any p xs)
any-append_one p xs r = ground (arith, any-append p xs (r ∷ []))

credit-IsRecorded :
    (l : PrepaidLedger) (payer : Bytes) (amount : ℕ) (fref : Bytes)
    → IsRecorded l
    → IsRecorded (credit l payer amount fref).1
unfolding credit
credit-IsRecorded l payer amount fref h g =
    ground (arith, h g, any-append_one (has_ref g) l.top_ups (credit l payer amount fref).0)

-- With the invariant a top-up always returns, and keeps the invariant.
top_up-IsRecorded :
    (l : PrepaidLedger) (payer : Bytes) (amount : ℕ) (fref : Bytes)
    → IsRecorded l
    → (r : TopUpRecord) × (l' : PrepaidLedger) × (top_up l payer amount fref ≡ some (r, l'))
      × IsRecorded l'
unfolding top_up
top_up-IsRecorded l payer amount fref h = elim (Bool-cases (is_credited fref l.credited_refs)) [
  | inl seen ↦
      let (r, found) = find-any fref l.top_ups (sym (h fref) ∙ seen) in (r, l, rw (seen, found), h)
  | inr fresh ↦ (
    (credit l payer amount fref).0,
    (credit l payer amount fref).1,
    rw fresh,
    credit-IsRecorded l payer amount fref h,
  )
]

debit-IsRecorded :
    (l : PrepaidLedger) (payer : Bytes) (bill : Bill)
    → IsRecorded l
    → IsRecorded (debit l payer bill).1
unfolding debit
debit-IsRecorded l payer bill h g = ground (arith, h g)

refund-IsRecorded :
    (l : PrepaidLedger) (payer : Bytes) (amount : ℕ)
    → IsRecorded l
    → IsRecorded (refund l payer amount).1
unfolding refund
refund-IsRecorded l payer amount h g = ground (arith, h g)

after-IsRecorded :
    (c : Call) (l : PrepaidLedger)
    → IsRecorded l
    → (l' : PrepaidLedger) × (after l c ≡ some l') × IsRecorded l'
unfolding after
after-IsRecorded (tops_up payer amount fref) l h =
    let (r, l', e, h') = top_up-IsRecorded l payer amount fref h in (l', rw (e, after), h')
after-IsRecorded (debits payer bill) l h = (_, refl, debit-IsRecorded l payer bill h)
after-IsRecorded (refunds payer amount) l h = (_, refl, refund-IsRecorded l payer amount h)

run-IsRecorded :
    (cs : List Call) (l : PrepaidLedger)
    → IsRecorded l
    → (l' : PrepaidLedger) × (run l cs ≡ some l') × IsRecorded l'
unfolding run
run-IsRecorded [] l h = (l, refl, h)
run-IsRecorded (c ∷ cs) l h =
    let (m, e, k) = after-IsRecorded c l h in
    let (l', e', k') = run-IsRecorded cs m k in (l', rw (e, run) e', k')

-- No history of calls on a new ledger panics: a funding reference that counts as credited always has
-- its top-up record.
pub run-new_total :
    (currency : Bytes) (threshold : ℕ) (cs : List Call)
    → (l : PrepaidLedger) × (run (new currency threshold) cs ≡ some l) × IsRecorded l
run-new_total currency threshold cs = run-IsRecorded cs (new currency threshold) start
  where
    start : IsRecorded (new currency threshold)
    start = unfold new in λ fref. refl

-- The reference is credited, and `r` is the record that a replay finds.
abbrev IsReplayed : Bytes → TopUpRecord → PrepaidLedger → Type 0
IsReplayed fref r l =
    (is_credited fref l.credited_refs ≡ true) × (find (has_ref fref) l.top_ups ≡ some r)

find-any_missing :
    (fref : Bytes) (rs : List TopUpRecord)
    → any (has_ref fref) rs ≡ false
    → find (has_ref fref) rs ≡ none
find-any_missing fref [] h = refl
find-any_missing fref (x ∷ rs) h = ground (arith, find-any_missing fref rs)

credit-IsReplayed :
    (l : PrepaidLedger) (payer : Bytes) (amount : ℕ) (fref g : Bytes) (r : TopUpRecord)
    → IsReplayed g r l
    → IsReplayed g r (credit l payer amount fref).1
unfolding credit
credit-IsReplayed l payer amount fref g r h = (
  ground (arith, h.0),
  find-append_found (has_ref g) l.top_ups ((credit l payer amount fref).0 ∷ []) r h.1,
)

credit_starts-IsReplayed :
    (l : PrepaidLedger) (payer : Bytes) (amount : ℕ) (fref : Bytes)
    → IsRecorded l
    → is_credited fref l.credited_refs ≡ false
    → IsReplayed fref (credit l payer amount fref).0 (credit l payer amount fref).1
unfolding credit
credit_starts-IsReplayed l payer amount fref h fresh = (
  ground (arith, bytes_beq_iff fref fref),
  find-append_missing (has_ref fref) l.top_ups ((credit l payer amount fref).0 ∷ [])
        (find-any_missing fref l.top_ups (sym (h fref) ∙ fresh))
      ∙ ground (arith, bytes_beq_iff fref fref),
)

top_up-IsReplayed :
    (l : PrepaidLedger) (payer : Bytes) (amount : ℕ) (fref : Bytes) (r : TopUpRecord)
    (l' : PrepaidLedger)
    → IsRecorded l
    → top_up l payer amount fref ≡ some (r, l')
    → IsReplayed fref r l'
unfolding top_up
top_up-IsReplayed l payer amount fref r l' h e =
    elim (Bool-cases (is_credited fref l.credited_refs)) [
      | inl seen ↦ ground (arith, seen)
      | inr fresh ↦ ground (arith, fresh, credit_starts-IsReplayed l payer amount fref h fresh)
    ]

after-IsReplayed :
    (c : Call) (l l' : PrepaidLedger) (fref : Bytes) (r : TopUpRecord)
    → after l c ≡ some l'
    → IsReplayed fref r l
    → IsReplayed fref r l'
unfolding after top_up debit refund
after-IsReplayed (tops_up payer amount g) l l' fref r e h =
    ground (arith, credit-IsReplayed l payer amount g fref r h)
after-IsReplayed (debits payer bill) l l' fref r e h = ground arith
after-IsReplayed (refunds payer amount) l l' fref r e h = ground arith

run-IsReplayed :
    (cs : List Call) (l l' : PrepaidLedger) (fref : Bytes) (r : TopUpRecord)
    → run l cs ≡ some l'
    → IsReplayed fref r l
    → IsReplayed fref r l'
unfolding run
run-IsReplayed [] l l' fref r e h = ground arith
run-IsReplayed (c ∷ cs) l l' fref r e h = elim (Option-cases (after l c)) [
  | inl q ↦ ground (arith, q)
  | inr (m, q) ↦
      run-IsReplayed cs m l' fref r (ground (arith, q)) (after-IsReplayed c l m fref r q h)
]

-- In a ledger whose credited references are those of its records, once a top-up under a funding
-- reference has returned, then after any further history a top-up under the same reference, for
-- whichever payer and amount, returns the record of the first and changes nothing.
pub top_up_replay :
    (l l₁ l₂ : PrepaidLedger) (p q : Bytes) (a b : ℕ) (fref : Bytes) (r : TopUpRecord)
    (cs : List Call)
    → IsRecorded l
    → top_up l p a fref ≡ some (r, l₁)
    → run l₁ cs ≡ some l₂
    → top_up l₂ q b fref ≡ some (r, l₂)
top_up_replay l l₁ l₂ p q a b fref r cs h first later =
    replays (run-IsReplayed cs l₁ l₂ fref r later (top_up-IsReplayed l p a fref r l₁ h first))
  where
    replays : IsReplayed fref r l₂ → top_up l₂ q b fref ≡ some (r, l₂)
    replays k = unfold top_up in rw (k.0, k.1)
