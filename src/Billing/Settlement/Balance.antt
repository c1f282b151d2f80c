-- ===== src/Billing/Settlement/Balance.antt =====
-- The ledger nets to zero.
use vulos_relay.Base.{
  ℕ, ◌+◌, ◌≡◌, refl, List, [], ◌∷◌, arith, Bytes, bytes_eq, pair_eq, bytes_beq_iff, if◌then◌else◌,
}
use vulos_relay.Base.Dict.{Dict, get, insert, get-insert}
use vulos_relay.Base.Words.{wrap_add, wrap_sub}
use vulos_relay.Billing.Settlement.{
  InMemoryLedger, new, or_zero, deposit, charge, next_seq, payer_sum, grand_total,
}

payer_sum-insert :
    (c payer currency : Bytes) (d : Dict (Bytes × Bytes) ℕ) (v : ℕ)
    → payer_sum c (insert d (payer, currency) v)
        + (if bytes_eq.beq currency c then or_zero (get d (payer, currency)) else 0)
      ≡ payer_sum c d + (if bytes_eq.beq currency c then v else 0)
unfolding payer_sum insert get
payer_sum-insert c payer currency [] v = ground arith
payer_sum-insert c payer currency ((k, w) ∷ d) v = ground (
  arith,
  bytes_beq_iff k.0 payer,
  bytes_beq_iff k.1 currency,
  payer_sum-insert c payer currency d v,
)

-- The calls on the ledger.
pub data Call : Type 0 where
  deposits charges : (payer : Bytes) (amount : ℕ) (currency : Bytes) → Call

unfoldable pub after : InMemoryLedger → Call → InMemoryLedger
after l (deposits payer amount currency) = deposit l payer amount currency
after l (charges payer amount currency) = (charge l payer amount currency).1

unfoldable pub run : InMemoryLedger → List Call → InMemoryLedger
run l [] = l
run l (c ∷ calls) = run (after l c) calls

after-total :
    (c : Bytes) (l : InMemoryLedger) (call : Call)
    → grand_total l c ≡ 0
    → grand_total (after l call) c ≡ 0
unfolding after grand_total deposit charge next_seq
after-total c l (deposits payer amount currency) h = ground (
  arith,
  bytes_beq_iff currency c,
  get-insert l.house currency c (wrap_sub (or_zero (get l.house currency)) amount),
  payer_sum-insert c payer currency l.balances
      (wrap_add (or_zero (get l.balances (payer, currency))) amount),
)
after-total c l (charges payer amount currency) h = ground (
  arith,
  bytes_beq_iff currency c,
  get-insert l.house currency c (wrap_add (or_zero (get l.house currency)) amount),
  payer_sum-insert c payer currency l.balances
      (wrap_sub (or_zero (get l.balances (payer, currency))) amount),
)

run-total :
    (c : Bytes) (l : InMemoryLedger) (calls : List Call)
    → grand_total l c ≡ 0
    → grand_total (run l calls) c ≡ 0
unfolding run
run-total c l [] h = h
run-total c l (call ∷ calls) h = run-total c (after l call) calls (after-total c l call h)

-- After any history of deposits and charges from a fresh ledger, the payers' balances in a currency
-- and the house account of that currency sum to zero as 64-bit words, whatever the amounts are.
pub run_nets_zero : (c : Bytes) (calls : List Call) → grand_total (run new calls) c ≡ 0
unfolding new grand_total payer_sum get
run_nets_zero c calls = run-total c new calls refl
