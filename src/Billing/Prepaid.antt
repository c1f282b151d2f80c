-- ===== src/Billing/Prepaid.antt =====
-- The prepaid ledger of crates/broker-billing/src/prepaid.rs. The methods run one after another; a
-- method returns its result and the ledger after it.
pub mod History
pub mod Conservation
pub mod Replay
pub mod Outcomes
use vulos_relay.Base.{
  ℕ, ◌+◌, ◌-◌, ◌≡◌, Bool, not, true, false, Option, none, some, List, [], ◌∷◌, ◌++◌, Bytes,
  bytes_eq, ltb, leb, ◌==◌, if◌then◌else◌, any, find,
}
use vulos_relay.Base.Dict.{Dict, get, insert}
use vulos_relay.Base.Words.{sat_add, wrap_add}
use vulos_relay.Base.Result.{Result, ok, err}
use vulos_relay.Billing.Tariff.{Bill}

pub data BillingState : Type 0 where
  fine low_balance exhausted : BillingState

pub data PrepaidError : Type 0 where
  currency_mismatch : (bill_currency ledger_currency : Bytes) → PrepaidError
  credit_exhausted : (payer : Bytes) (balance amount : ℕ) (currency : Bytes) → PrepaidError
  refund_exceeds_balance : (payer : Bytes) (amount balance : ℕ) → PrepaidError

pub record TopUpRecord : Type 0 where
  pub payer : Bytes
  pub amount : ℕ
  pub currency : Bytes
  pub funding_ref : Bytes
  pub tx_seq : ℕ

pub record DebitRecord : Type 0 where
  pub payer : Bytes
  pub amount : ℕ
  pub currency : Bytes
  pub tx_seq : ℕ

pub record RefundRecord : Type 0 where
  pub payer : Bytes
  pub amount : ℕ
  pub currency : Bytes
  pub tx_seq : ℕ

pub record CreditAccount : Type 0 where
  pub payer : Bytes
  pub currency : Bytes
  pub balance : ℕ
  pub low_balance_threshold : ℕ

unfoldable pub account_state : CreditAccount → BillingState
account_state a =
    if a.balance == 0
    then exhausted
    else if leb a.balance a.low_balance_threshold
    then low_balance
    else fine

pub record PrepaidLedger : Type 0 where
  pub currency : Bytes
  pub low_balance_threshold : ℕ
  pub balances : Dict Bytes ℕ
  pub top_ups : List TopUpRecord
  pub debits : List DebitRecord
  pub refunds : List RefundRecord
  pub next_tx_seq : ℕ
  pub credited_refs : List Bytes

unfoldable pub new : Bytes → ℕ → PrepaidLedger
new currency threshold = record {
  currency = currency;
  low_balance_threshold = threshold;
  balances = [];
  top_ups = [];
  debits = [];
  refunds = [];
  next_tx_seq = 0;
  credited_refs = [];
}

abbrev pub or_zero : Option ℕ → ℕ
or_zero none = 0
or_zero (some n) = n

unfoldable pub balance : PrepaidLedger → Bytes → ℕ
balance l payer = or_zero (get l.balances payer)

unfoldable pub account : PrepaidLedger → Bytes → CreditAccount
account l payer = record {
  payer = payer;
  currency = l.currency;
  balance = balance l payer;
  low_balance_threshold = l.low_balance_threshold;
}

unfoldable pub state : PrepaidLedger → Bytes → BillingState
unfolding account account_state
state l payer = account_state (account l payer)

-- Takes the next sequence number.
unfoldable pub next_seq : PrepaidLedger → ℕ × PrepaidLedger
next_seq l = (l.next_tx_seq, record l { next_tx_seq = wrap_add l.next_tx_seq 1 })

abbrev pub has_ref : Bytes → TopUpRecord → Bool
has_ref fref r = bytes_eq.beq r.funding_ref fref

-- A funding reference that was not credited before: credit the balance and record the top-up.
unfoldable pub credit : PrepaidLedger → Bytes → ℕ → Bytes → TopUpRecord × PrepaidLedger
unfolding balance next_seq
credit l payer amount fref =
    let l₁ = record l { balances = insert l.balances payer (sat_add (balance l payer) amount) } in
    let (seq, l₂) = next_seq l₁ in
    let r : TopUpRecord = record {
      payer = payer;
      amount = amount;
      currency = l.currency;
      funding_ref = fref;
      tx_seq = seq;
    } in
    (r, record l₂ { top_ups = l₂.top_ups ++ (r ∷ []); credited_refs = fref ∷ l₂.credited_refs })

-- `none` is the panic of `expect`: a credited reference without its record.
unfoldable pub top_up : PrepaidLedger → Bytes → ℕ → Bytes → Option (TopUpRecord × PrepaidLedger)
top_up l payer amount fref =
    if any (λ r. bytes_eq.beq r fref) l.credited_refs
    then elim (find (has_ref fref) l.top_ups) [ none ↦ none | some r ↦ some (r, l) ]
    else some (credit l payer amount fref)

-- The ledger after `amount` left the payer's balance and a number was taken.
unfoldable pub withdraw : PrepaidLedger → Bytes → ℕ → ℕ × PrepaidLedger
unfolding balance next_seq
withdraw l payer amount =
    next_seq (record l { balances = insert l.balances payer (balance l payer - amount) })

unfoldable pub debit :
    PrepaidLedger → Bytes → Bill → Result PrepaidError DebitRecord × PrepaidLedger
unfolding withdraw
debit l payer bill =
    if not (bytes_eq.beq bill.currency l.currency)
    then (err (currency_mismatch bill.currency l.currency), l)
    else if ltb (balance l payer) bill.amount
    then (err (credit_exhausted payer (balance l payer) bill.amount l.currency), l)
    else (let (seq, l') = withdraw l payer bill.amount in
        let r : DebitRecord = record {
          payer = payer;
          amount = bill.amount;
          currency = l.currency;
          tx_seq = seq;
        } in
        (ok r, record l' { debits = l'.debits ++ (r ∷ []) }))

unfoldable pub refund : PrepaidLedger → Bytes → ℕ → Result PrepaidError RefundRecord × PrepaidLedger
unfolding withdraw
refund l payer amount =
    if ltb (balance l payer) amount
    then (err (refund_exceeds_balance payer amount (balance l payer)), l)
    else (let (seq, l') = withdraw l payer amount in
        let r : RefundRecord = record {
          payer = payer;
          amount = amount;
          currency = l.currency;
          tx_seq = seq;
        } in
        (ok r, record l' { refunds = l'.refunds ++ (r ∷ []) }))
