-- ===== src/Billing/Meter.antt =====
-- The in-memory meter of crates/broker-billing/src/meter.rs. Each method holds the mutex
-- throughout, so a method is one step.
pub mod Totals
use vulos_relay.Base.{ℕ, ◌≡◌, Option, none, some, List, [], ◌∷◌, Bytes, bytes_eq}
use vulos_relay.Base.Dict.{Dict, get, insert, remove}
use vulos_relay.Base.Words.{sat_add}
use vulos_relay.Billing.Kind.{ResourceKind, KindMap, no_kinds, set_kind, count_or_zero}

-- `InMemoryMeter`: the units that each payer used, by kind.
pub record Meter : Type 0 where
  pub table : Dict Bytes KindMap

unfoldable pub new : Meter
new = record { table = [] }

abbrev or_default : Option KindMap → KindMap
or_default none = no_kinds
or_default (some m) = m

unfoldable pub usage : Meter → Bytes → KindMap
usage m payer = or_default (get m.table payer)

unfoldable pub record_units : Meter → Bytes → ResourceKind → ℕ → Meter
unfolding usage
record_units m payer kind units =
    let entry = usage m payer in
    record {
      table =
          insert m.table payer (set_kind entry kind (sat_add (count_or_zero (entry kind)) units));
    }

-- Returns what was cleared.
unfoldable pub reset : Meter → Bytes → KindMap × Meter
unfolding usage
reset m payer = (usage m payer, record { table = remove m.table payer })
