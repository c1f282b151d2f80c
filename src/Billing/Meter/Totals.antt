-- ===== src/Billing/Meter/Totals.antt =====
-- What a meter reports after any history of calls.
use vulos_relay.Base.{
  ℕ, ◌+◌, ◌≡◌, refl, min, List, [], ◌∷◌, arith, Bytes, bytes_eq, bytes_beq_iff, if◌then◌else◌,
}
use vulos_relay.Base.Dict.{get, get-insert, get-remove}
use vulos_relay.Base.Words.{u64_max, sat_add}
use vulos_relay.Billing.Kind.{
  ResourceKind, count_or_zero, no_kinds, kind_beq, kind_beq_iff, set_kind,
}
use vulos_relay.Billing.Meter.{Meter, new, usage, record_units, reset}

pub data Event : Type 0 where
  recorded : Bytes → ResourceKind → ℕ → Event
  cleared : Bytes → Event

unfoldable pub after : Meter → Event → Meter
after m (recorded payer kind units) = record_units m payer kind units
after m (cleared payer) = (reset m payer).1

unfoldable pub run : Meter → List Event → Meter
run m [] = m
run m (e ∷ es) = run (after m e) es

-- The units of a kind that were recorded for a payer since its last reset, on top of `acc`.
unfoldable pub since_reset : Bytes → ResourceKind → ℕ → List Event → ℕ
since_reset p k acc [] = acc
since_reset p k acc (recorded payer kind units ∷ es) =
    since_reset p k
      (if bytes_eq.beq payer p then (if kind_beq kind k then acc + units else acc) else acc) es
since_reset p k acc (cleared payer ∷ es) =
    since_reset p k (if bytes_eq.beq payer p then 0 else acc) es

metered : Meter → Bytes → ResourceKind → ℕ
metered m p k = count_or_zero (usage m p k)

metered-record_units :
    (m : Meter) (p payer : Bytes) (k kind : ResourceKind) (units acc : ℕ)
    → metered m p k ≡ min u64_max acc
    → metered (record_units m payer kind units) p k
      ≡ min u64_max
          (if bytes_eq.beq payer p then (if kind_beq kind k then acc + units else acc) else acc)
unfolding metered usage record_units
metered-record_units m p payer k kind units acc h = ground (
  arith,
  bytes_beq_iff payer p,
  kind_beq_iff kind k,
  get-insert m.table payer p
      (set_kind (usage m payer) kind (sat_add (count_or_zero (usage m payer kind)) units)),
)

metered-reset :
    (m : Meter) (p payer : Bytes) (k : ResourceKind) (acc : ℕ)
    → metered m p k ≡ min u64_max acc
    → metered (reset m payer).1 p k ≡ min u64_max (if bytes_eq.beq payer p then 0 else acc)
unfolding metered usage reset
metered-reset m p payer k acc h = ground (arith, get-remove m.table payer p)

metered-run :
    (es : List Event) (m : Meter) (p : Bytes) (k : ResourceKind) (acc : ℕ)
    → metered m p k ≡ min u64_max acc
    → metered (run m es) p k ≡ min u64_max (since_reset p k acc es)
unfolding run after since_reset
metered-run [] m p k acc h = h
metered-run (recorded payer kind units ∷ es) m p k acc h =
    metered-run es _ p k _ (metered-record_units m p payer k kind units acc h)
metered-run (cleared payer ∷ es) m p k acc h =
    metered-run es _ p k _ (metered-reset m p payer k acc h)

-- After any history of a fresh meter, the count that it reports for a payer and a kind is the exact
-- number of units recorded for that payer and kind since the payer's last reset, capped at the
-- largest u64.
pub usage-run :
    (es : List Event) (p : Bytes) (k : ResourceKind)
    → count_or_zero (usage (run new es) p k) ≡ min u64_max (since_reset p k 0 es)
unfolding metered
usage-run es p k = metered-run es new p k 0 start
  where
    start : count_or_zero (usage new p k) ≡ min u64_max 0
    start = unfold usage new get in omega arith

-- A reset hands back what the meter reported for the payer and leaves nothing of it, and every other
-- payer's usage as it was.
reset_lem :
    (m : Meter) (p q : Bytes)
    → ((reset m p).0 ≡ usage m p)
      × (usage (reset m p).1 q ≡ (if bytes_eq.beq p q then no_kinds else usage m q))
unfolding usage reset
reset_lem m p q = (refl, ground (arith, get-remove m.table p q))
