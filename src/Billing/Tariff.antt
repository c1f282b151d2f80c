-- ===== src/Billing/Tariff.antt =====
-- `TariffSchedule::evaluate` of crates/broker-billing/src/tariff.rs. The CBOR codec of a schedule is
-- the dependency's and is not modelled.
pub mod Amount
use vulos_relay.Base.{ℕ, ◌-◌, ◌≡◌, Option, none, some, List, [], ◌∷◌, ◌++◌, Bytes, min}
use vulos_relay.Base.Words.{sat_add, sat_mul}
use vulos_relay.Base.Result.{Result, ok, err}
use vulos_relay.Billing.Kind.{ResourceKind, KindMap, count_or_zero, entries}

-- `CborError` is the codec's error type.
pub data BillingError (CborError : Type 0) : Type 0 where
  bad_encoding : CborError → BillingError CborError
  malformed : Bytes → BillingError CborError
  unpriced_kind : ResourceKind → BillingError CborError

pub record TariffSchedule : Type 0 where
  pub currency : Bytes
  pub prices : KindMap
  pub free_allowance : KindMap
  pub period_seconds : Option ℕ

pub record LineItem : Type 0 where
  pub kind : ResourceKind
  pub metered_units : ℕ
  pub free_units_applied : ℕ
  pub billed_units : ℕ
  pub unit_price : ℕ
  pub amount : ℕ

pub record Bill : Type 0 where
  pub currency : Bytes
  pub amount : ℕ
  pub line_items : List LineItem

-- One round of the loop, at a price that was found.
unfoldable pub line_item : TariffSchedule → ResourceKind → ℕ → ℕ → LineItem
line_item s kind units unit_price =
    let free = count_or_zero (s.free_allowance kind) in
    let billed = units - free in
    record {
      kind = kind;
      metered_units = units;
      free_units_applied = min free units;
      billed_units = billed;
      unit_price = unit_price;
      amount = sat_mul billed unit_price;
    }

-- The loop over the usage, with the amount and the items so far.
unfoldable pub evaluate_loop :
    {C : Type 0}
    → TariffSchedule
    → ℕ
    → List LineItem
    → List (ResourceKind × ℕ)
    → Result (BillingError C) Bill
evaluate_loop s amount items [] =
    ok (record { currency = s.currency; amount = amount; line_items = items })
evaluate_loop s amount items ((kind, units) ∷ rest) = elim (s.prices kind) [
  | none ↦ err (unpriced_kind kind)
  | some unit_price ↦
      let item = line_item s kind units unit_price in
      evaluate_loop s (sat_add amount item.amount) (items ++ (item ∷ [])) rest
]

unfoldable pub evaluate : {C : Type 0} → TariffSchedule → KindMap → Result (BillingError C) Bill
evaluate s usage = evaluate_loop s 0 [] (entries usage)
