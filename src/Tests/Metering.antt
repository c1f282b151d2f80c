-- ===== src/Tests/Metering.antt =====
-- Metering and pricing on a small usage.
use vulos_relay.Base.{
  ℕ, ◌≡◌, ◌≢◌, ◌⊎◌, All, refl, min, none, List, [], ◌∷◌, Bytes, bytes_eq, bytes_beq, codes,
}
use vulos_relay.Base.Words.{u64_max}
use vulos_relay.Base.Result.{ok, err}
use vulos_relay.Billing.Kind.{
  ResourceKind, KindMap, bytes_forwarded, messages, no_kinds, set_kind, count_or_zero, entries,
}
use vulos_relay.Billing.Meter.{new, usage}
use vulos_relay.Billing.Meter.Totals.{Event, recorded, cleared, run, since_reset, usage-run}
use vulos_relay.Billing.Tariff.{TariffSchedule, evaluate, unpriced_kind}
use vulos_relay.Billing.Tariff.Amount.{owed, items_for, IsPriced, evaluate_outcome}

abbrev alice : Bytes
alice = codes "alice"

abbrev events : List Event
events =
    recorded alice messages 9
    ∷ cleared alice
    ∷ recorded alice messages 5
    ∷ recorded alice bytes_forwarded 100
    ∷ recorded alice messages 2
    ∷ []

usage-run_example :
    count_or_zero (usage (run new events) alice messages)
    ≡ min u64_max (since_reset alice messages 0 events)
usage-run_example = usage-run events alice messages

since_reset_7 : since_reset alice messages 0 events ≡ 7
unfolding since_reset bytes_beq
since_reset_7 = refl

abbrev schedule : TariffSchedule
schedule = record {
  currency = codes "USD";
  prices = set_kind no_kinds messages 3;
  free_allowance = set_kind no_kinds messages 2;
  period_seconds = none;
}

abbrev seven_messages : KindMap
seven_messages = set_kind no_kinds messages 7

evaluate_outcome_example :
    (All (IsPriced schedule) (entries seven_messages)
      × (evaluate {C = ℕ} schedule seven_messages
          ≡ ok (record {
            currency = codes "USD";
            amount = min u64_max (owed schedule seven_messages);
            line_items = items_for schedule (entries seven_messages);
          })))
    ⊎ ((j : ResourceKind) × (evaluate {C = ℕ} schedule seven_messages ≡ err (unpriced_kind j))
        × (seven_messages j ≢ none)
        × (schedule.prices j ≡ none))
evaluate_outcome_example = evaluate_outcome {C = ℕ} schedule seven_messages
