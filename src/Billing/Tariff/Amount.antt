-- ===== src/Billing/Tariff/Amount.antt =====
-- What a bill amounts to, and when there is none.
use vulos_relay.Base.{
  ℕ, ◌+◌, ◌-◌, ◌*◌, ◌≡◌, ◌≢◌, refl, ap₂, ap, ◌∙◌, min, none, some, List, [], ◌∷◌, ◌++◌, append-nil,
  append_assoc, All, arith, ◌⊎◌, inl, inr, Option-cases,
}
use native.Mathlib.Nat.{add_assoc}
use vulos_relay.Base.Words.{u64_max, sat_add, sat_mul}
use vulos_relay.Base.Result.{ok, err}
use vulos_relay.Billing.Kind.{
  ResourceKind, bytes_forwarded, connections, messages, compute_seconds, KindMap, count_or_zero,
  entries, entries_of, kinds,
}
use vulos_relay.Billing.Tariff.{
  unpriced_kind, TariffSchedule, LineItem, Bill, line_item, evaluate_loop, evaluate,
}

-- The unbounded charge for one kind: the units above the allowance, at the unit price.
abbrev pub charge : TariffSchedule → ResourceKind → ℕ → ℕ
charge s k units = (units - count_or_zero (s.free_allowance k)) * count_or_zero (s.prices k)

abbrev pub charges : TariffSchedule → List (ResourceKind × ℕ) → ℕ
charges s [] = 0
charges s ((k, units) ∷ rest) = charge s k units + charges s rest

-- The same for whatever was metered, kind by kind.
abbrev pub owed : TariffSchedule → KindMap → ℕ
owed s usage =
    owed_for bytes_forwarded + owed_for connections + owed_for messages + owed_for compute_seconds
  where
    owed_for : ResourceKind → ℕ
    owed_for k = charge s k (count_or_zero (usage k))

abbrev pub items_for : TariffSchedule → List (ResourceKind × ℕ) → List LineItem
items_for s [] = []
items_for s ((k, units) ∷ rest) =
    line_item s k units (count_or_zero (s.prices k)) ∷ items_for s rest

abbrev pub IsPriced : TariffSchedule → ResourceKind × ℕ → Type 0
IsPriced s e = s.prices e.0 ≢ none

sat_add-min : (a b : ℕ) → sat_add (min u64_max a) (min u64_max b) ≡ min u64_max (a + b)
sat_add-min a b = ground arith

sat_mul-min : (a b : ℕ) → sat_mul a b ≡ min u64_max (a * b)
sat_mul-min a b = ground arith

amount-line_item :
    (s : TariffSchedule) (k : ResourceKind) (units : ℕ)
    → (line_item s k units (count_or_zero (s.prices k))).amount ≡ min u64_max (charge s k units)
unfolding line_item
amount-line_item s k units = sat_mul-min _ _

abbrev pub bill_after : TariffSchedule → ℕ → List LineItem → List (ResourceKind × ℕ) → Bill
bill_after s acc items rest = record {
  currency = s.currency;
  amount = min u64_max (acc + charges s rest);
  line_items = items ++ items_for s rest;
}

entries_of_missing :
    (usage : KindMap) (k : ResourceKind) (ks : List ResourceKind)
    → usage k ≡ none
    → entries_of usage (k ∷ ks) ≡ entries_of usage ks
entries_of_missing usage k ks e = rw (e, entries_of)

entries_of_metered :
    (usage : KindMap) (k : ResourceKind) (ks : List ResourceKind) (units : ℕ)
    → usage k ≡ some units
    → entries_of usage (k ∷ ks) ≡ (k, units) ∷ entries_of usage ks
entries_of_metered usage k ks units e = rw (e, entries_of)

same_bill :
    (s : TariffSchedule) (a b : ℕ) (xs ys : List LineItem)
    → a ≡ b
    → xs ≡ ys
    → ◌≡◌ {A = Bill}
        (record { currency = s.currency; amount = a; line_items = xs })
        (record { currency = s.currency; amount = b; line_items = ys })
same_bill s a b xs ys p q = cc

module _ (C : Type 0) (s : TariffSchedule) where
  evaluate_loop_step :
      (amount : ℕ) (items : List LineItem) (k : ResourceKind) (units : ℕ)
      (rest : List (ResourceKind × ℕ))
      → s.prices k ≢ none
      → evaluate_loop {C = C} s amount items ((k, units) ∷ rest)
        ≡ evaluate_loop s
            (sat_add amount (line_item s k units (count_or_zero (s.prices k))).amount)
            (items ++ (line_item s k units (count_or_zero (s.prices k)) ∷ []))
            rest
  unfolding evaluate_loop
  evaluate_loop_step amount items k units rest h = elim (Option-cases (s.prices k)) [
    | inl e ↦ absurd (h e)
    | inr (price, e) ↦ rw (e, evaluate_loop)
  ]

  evaluate_loop_priced :
      (acc amount : ℕ) (items : List LineItem) (rest : List (ResourceKind × ℕ))
      → amount ≡ min u64_max acc
      → All (IsPriced s) rest
      → evaluate_loop {C = C} s amount items rest ≡ ok (bill_after s acc items rest)
  unfolding evaluate_loop
  evaluate_loop_priced acc amount items [] h p =
      rw (h, append-nil) (ap ok (same_bill s _ _ _ _ (omega arith) refl))
  evaluate_loop_priced acc amount items ((k, units) ∷ rest) h p =
      evaluate_loop_step amount items k units rest p.0
      ∙ evaluate_loop_priced (acc + charge s k units) _ _ rest
          (ap₂ sat_add h (amount-line_item s k units) ∙ sat_add-min _ _) p.1
      ∙ ap ok (same_bill s _ _ _ _ (ap (min u64_max) (add_assoc _ _ _)) (append_assoc items _ _))

  -- Every entry has a price, or the loop stops at one that is metered and has none.
  abbrev Outcome : KindMap → ℕ → List LineItem → List (ResourceKind × ℕ) → Type 0
  Outcome usage amount items es =
      All (IsPriced s) es
      ⊎ ((j : ResourceKind) × (evaluate_loop {C = C} s amount items es ≡ err (unpriced_kind j))
          × (usage j ≢ none)
          × (s.prices j ≡ none))

  Outcome-unpriced :
      (usage : KindMap) (k : ResourceKind) (units amount : ℕ) (items : List LineItem)
      (es : List (ResourceKind × ℕ))
      → usage k ≡ some units
      → s.prices k ≡ none
      → Outcome usage amount items ((k, units) ∷ es)
  unfolding evaluate_loop
  Outcome-unpriced usage k units amount items es m e = inr (k, rw (e, evaluate_loop), (λ q. cc), e)

  Outcome-priced :
      (usage : KindMap) (k : ResourceKind) (units amount : ℕ) (items : List LineItem)
      (es : List (ResourceKind × ℕ))
      → s.prices k ≢ none
      → Outcome usage
          (sat_add amount (line_item s k units (count_or_zero (s.prices k))).amount)
          (items ++ (line_item s k units (count_or_zero (s.prices k)) ∷ []))
          es
      → Outcome usage amount items ((k, units) ∷ es)
  Outcome-priced usage k units amount items es p (inl ps) = inl (p, ps)
  Outcome-priced usage k units amount items es p (inr (j, e, m, q)) =
      inr (j, evaluate_loop_step amount items k units es p ∙ e, m, q)

  evaluate_loop-Outcome :
      (usage : KindMap) (ks : List ResourceKind) (amount : ℕ) (items : List LineItem)
      → Outcome usage amount items (entries_of usage ks)
  evaluate_loop-Outcome usage [] amount items = inl tt
  evaluate_loop-Outcome usage (k ∷ ks) amount items =
      let ih = evaluate_loop-Outcome usage ks in
      elim (Option-cases (usage k)) [
        | inl e ↦ rw (entries_of_missing usage k ks e) (ih amount items)
        | inr (units, e) ↦
            rw (entries_of_metered usage k ks units e) (elim (Option-cases (s.prices k)) [
              | inl q ↦ Outcome-unpriced usage k units amount items _ e q
              | inr (price, q) ↦ Outcome-priced usage k units amount items _ (λ r. cc) (ih _ _)
            ])
      ]

charges-entries : (s : TariffSchedule) (usage : KindMap) → charges s (entries usage) ≡ owed s usage
charges-entries s usage = ground arith

-- Either every metered kind has a price, and the evaluation bills each metered kind, in order, for the units above
-- its free allowance, and the amount is the exact sum of these charges capped at the largest u64;
-- or it fails, naming a kind that is metered and has no price.
pub evaluate_outcome :
    {C : Type 0} (s : TariffSchedule) (usage : KindMap)
    → (All (IsPriced s) (entries usage)
        × (evaluate {C = C} s usage
            ≡ ok (record {
              currency = s.currency;
              amount = min u64_max (owed s usage);
              line_items = items_for s (entries usage);
            })))
      ⊎ ((j : ResourceKind) × (evaluate {C = C} s usage ≡ err (unpriced_kind j))
          × (usage j ≢ none)
          × (s.prices j ≡ none))
unfolding evaluate
evaluate_outcome {C} s usage = elim (evaluate_loop-Outcome C s usage kinds 0 []) [
  | inl ps ↦ inl (
    ps,
    evaluate_loop_priced C s 0 0 [] _ (omega arith) ps
        ∙ ap ok
            (same_bill s _ _ _ _ (ap (min u64_max) (omega (arith, charges-entries s usage))) refl),
  )
  | inr stop ↦ inr stop
]
