-- ===== src/Gateway/Quota/Relaying.antt =====
-- A run of metered relays in crates/gateway/src/authz.rs.
use vulos_relay.Base.{
  ℕ, suc, ◌≡◌, refl, sym, ap, subst, ◌∙◌, ◌⊎◌, inl, inr, Bool, Bool-cases, none, some, Option-cases,
  List, [], ◌∷◌, ◌++◌, Bytes, bytes_eq, bytes_beq, bytes_beq_iff, if◌then◌else◌, length, keep, min,
  arith,
}
use vulos_relay.Base.Dict.{Dict, get}
use vulos_relay.Base.Words.{sat_add, u64_max}
use vulos_relay.Base.Result.{ok, err}
use vulos_relay.Gateway.Quota.{
  BridgeDirection, MeterEvent, CountingMeter, record_event, Quota, Usage, QuotaError, QuotaLedger,
  usage, unregistered, try_charge, charge_and_meter,
}
use vulos_relay.Gateway.Quota.Charging.{Fits, plus, charge_outcome, try_charge-limits}

pub record Relay : Type 0 where
  pub account : Bytes
  pub domain : Bytes
  pub direction : BridgeDirection
  pub rfc5322_bytes : Bytes
  pub at : ℕ

-- The events that bill an account.
abbrev pub billed : Bytes → CountingMeter → ℕ
billed account meter = length (keep (λ e. bytes_beq e.account account) meter.events)

module _ (digest : Bytes → Bytes) where
  unfoldable pub relay : QuotaLedger → CountingMeter → Relay → QuotaLedger × CountingMeter
  unfolding charge_and_meter
  relay ledger meter x =
      let (r, ledger₁, meter₁) =
        charge_and_meter digest ledger meter x.account x.domain x.direction x.rfc5322_bytes x.at in
      (ledger₁, meter₁)

  unfoldable pub run : QuotaLedger → CountingMeter → List Relay → QuotaLedger × CountingMeter
  unfolding relay
  run ledger meter [] = (ledger, meter)
  run ledger meter (x ∷ xs) = let (ledger₁, meter₁) = relay ledger meter x in run ledger₁ meter₁ xs

  keep-push :
      (p : MeterEvent → Bool) (es : List MeterEvent) (e : MeterEvent)
      → length (keep p (es ++ e ∷ []))
        ≡ (if p e then suc (length (keep p es)) else length (keep p es))
  keep-push p [] e = ground arith
  keep-push p (d ∷ es) e = ground (arith, keep-push p es e)

  -- Usage, caps and bill before and after one relay.
  abbrev Agrees : Bytes → QuotaLedger → CountingMeter → Type 0
  Agrees account ledger meter = (usage ledger account).messages ≡ min (billed account meter) u64_max

  abbrev IsCapped : Dict Bytes Quota → Bytes → QuotaLedger → Type 0
  IsCapped limits account ledger =
      (get limits account ≡ none)
      ⊎ ((quota : Quota) × (get limits account ≡ some quota) × Fits quota (usage ledger account))

  relay-ok :
      (ledger : QuotaLedger) (meter : CountingMeter) (x : Relay) (u : Usage)
      → (try_charge ledger x.account (length x.rfc5322_bytes)).0 ≡ ok u
      → (account : Bytes)
      → ((relay ledger meter x).0 ≡ (try_charge ledger x.account (length x.rfc5322_bytes)).1)
        × (billed account (relay ledger meter x).1 ≡ (
            if bytes_beq x.account account
            then suc (billed account meter)
            else billed account meter))
  unfolding relay charge_and_meter record_event
  relay-ok ledger meter x u h account =
      rw (relay, charge_and_meter, h)
        (refl, keep-push (λ e. bytes_beq e.account account) meter.events _)

  relay-err :
      (ledger : QuotaLedger) (meter : CountingMeter) (x : Relay)
      → (e : QuotaError) → (try_charge ledger x.account (length x.rfc5322_bytes)).0 ≡ err e
      → ((relay ledger meter x).0 ≡ (try_charge ledger x.account (length x.rfc5322_bytes)).1)
        × ((relay ledger meter x).1 ≡ meter)
  unfolding relay charge_and_meter
  relay-err ledger meter x e h = rw (relay, charge_and_meter, h) (refl, refl)

  record Inv (limits : Dict Bytes Quota) (account : Bytes) (s : QuotaLedger × CountingMeter)
      : Type 0 where
    same : s.0.limits ≡ limits
    agrees : Agrees account s.0 s.1
    capped : IsCapped limits account s.0

  -- A step that leaves the account's usage and its bill.
  kept :
      (limits : Dict Bytes Quota) (account : Bytes) (s t : QuotaLedger × CountingMeter)
      → Inv limits account s
      → t.0.limits ≡ s.0.limits
      → usage t.0 account ≡ usage s.0 account
      → billed account t.1 ≡ billed account s.1
      → Inv limits account t
  kept limits account s t h el eu eb = record {
    same = el ∙ h.same;
    agrees = ap (λ u. u.messages) eu ∙ h.agrees ∙ ap (λ n. min n u64_max) (sym eb);
    capped = elim h.capped [
      | inl q ↦ inl q
      | inr (quota, q, f) ↦ inr (quota, q, subst (Fits quota) (sym eu) f)
    ];
  }

  one_more : (n b : ℕ) → n ≡ min b u64_max → sat_add n 1 ≡ min (suc b) u64_max
  one_more n b h = ground (arith, h)

  -- A step that adds a message to the account's usage and to its bill.
  added :
      (limits : Dict Bytes Quota) (account : Bytes) (quota : Quota) (n : ℕ)
      (s t : QuotaLedger × CountingMeter)
      → Inv limits account s
      → t.0.limits ≡ s.0.limits
      → get limits account ≡ some quota
      → Fits quota (plus (usage s.0 account) n)
      → usage t.0 account ≡ plus (usage s.0 account) n
      → billed account t.1 ≡ suc (billed account s.1)
      → Inv limits account t
  added limits account quota n s t h el q f eu eb = record {
    same = el ∙ h.same;
    agrees =
        ap (λ u. u.messages) eu
        ∙ one_more (usage s.0 account).messages (billed account s.1) h.agrees
        ∙ ap (λ m. min m u64_max) (sym eb);
    capped = inr (quota, q, subst (Fits quota) (sym eu) f);
  }

  relay-Inv :
      (limits : Dict Bytes Quota) (account : Bytes) (ledger : QuotaLedger) (meter : CountingMeter)
      (x : Relay)
      → Inv limits account (ledger, meter)
      → Inv limits account (relay ledger meter x)
  relay-Inv limits account ledger meter x h =
      let n = length x.rfc5322_bytes in
      let p = try_charge ledger x.account n in
      let s : QuotaLedger × CountingMeter = (ledger, meter) in
      let t = relay ledger meter x in
      let el : p.1.limits ≡ ledger.limits = try_charge-limits ledger x.account n in
      elim (charge_outcome ledger x.account account n) [
        | inl (q, e) ↦
            let (e₀, e₁) = relay-err ledger meter x (unregistered x.account) (ap (λ z. z.0) e) in
            kept limits account s t h (ap (λ l. l.limits) e₀ ∙ el)
              (ap (λ l. usage l account) (e₀ ∙ ap (λ z. z.1) e)) (ap (billed account) e₁)
        | inr (quota, q, inr (inl e, eu)) ↦
            let (e₀, e₁) = relay-err ledger meter x _ e in
            kept limits account s t h (ap (λ l. l.limits) e₀ ∙ el)
              (ap (λ l. usage l account) e₀ ∙ eu) (ap (billed account) e₁)
        | inr (quota, q, inr (inr e, eu)) ↦
            let (e₀, e₁) = relay-err ledger meter x _ e in
            kept limits account s t h (ap (λ l. l.limits) e₀ ∙ el)
              (ap (λ l. usage l account) e₀ ∙ eu) (ap (billed account) e₁)
        | inr (quota, q, inl (e, f, eu)) ↦
            let (e₀, e₁) = relay-ok ledger meter x _ e account in
            elim (Bool-cases (bytes_beq x.account account)) [
              | inr b ↦
                  kept limits account s t h (ap (λ l. l.limits) e₀ ∙ el)
                    (ap (λ l. usage l account) e₀ ∙ eu ∙ rw b refl) (e₁ ∙ rw b refl)
              | inl b ↦
                  let same : x.account ≡ account = (bytes_beq_iff x.account account).0 b in
                  added limits account quota n s t h (ap (λ l. l.limits) e₀ ∙ el)
                    (sym (ap (λ d. get d account) h.same) ∙ ap (get ledger.limits) (sym same) ∙ q)
                    (subst (λ k. Fits quota (plus (usage ledger k) n)) same f)
                    (ap (λ l. usage l account) e₀
                      ∙ eu
                      ∙ rw b (ap (λ k. plus (usage ledger k) n) same))
                    (e₁ ∙ rw b refl)
            ]
      ]

  run-Inv :
      (limits : Dict Bytes Quota) (account : Bytes) (ledger : QuotaLedger) (meter : CountingMeter)
      (xs : List Relay)
      → Inv limits account (ledger, meter)
      → Inv limits account (run ledger meter xs)
  unfolding run
  run-Inv limits account ledger meter [] h = h
  run-Inv limits account ledger meter (x ∷ xs) h =
      run-Inv limits account (relay ledger meter x).0 (relay ledger meter x).1 xs
        (relay-Inv limits account ledger meter x h)

  abbrev pub ledger_of : Dict Bytes Quota → QuotaLedger
  ledger_of limits = record { limits = limits; used = [] }

  abbrev pub no_events : CountingMeter
  no_events = record { events = [] }

  started :
      (limits : Dict Bytes Quota) (account : Bytes)
      → Inv limits account (ledger_of limits, no_events)
  unfolding usage get
  started limits account = record {
    same = refl;
    agrees = omega arith;
    capped = elim (Option-cases (get limits account)) [
      | inl q ↦ inl q
      | inr (quota, q) ↦ inr (quota, q, (inr (omega arith), inr (omega arith)))
    ];
  }

  -- After any relays from an empty ledger and meter, for every account: its usage counts as many
  -- messages as the meter has events that bill it, up to the largest `u64`; and its usage is within
  -- the caps of its quota, where it has one.
  pub relays_metered :
      (limits : Dict Bytes Quota) (xs : List Relay) (account : Bytes)
      → ((usage (run (ledger_of limits) no_events xs).0 account).messages
          ≡ min (billed account (run (ledger_of limits) no_events xs).1) u64_max)
        × ((get limits account ≡ none)
            ⊎ ((quota : Quota) × (get limits account ≡ some quota)
                × Fits quota (usage (run (ledger_of limits) no_events xs).0 account)))
  relays_metered limits xs account =
      let h = run-Inv limits account (ledger_of limits) no_events xs (started limits account) in
      (h.agrees, h.capped)
