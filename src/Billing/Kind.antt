-- ===== src/Billing/Kind.antt =====
-- `ResourceKind` of crates/broker-billing/src/meter.rs, and maps keyed by it (a `BTreeMap`, which
-- is read in the order of the constructors).
use vulos_relay.Base.{
  ℕ, ◌≡◌, ◌↔◌, Bool, true, false, Option, none, some, List, [], ◌∷◌, arith, ◌==◌, if◌then◌else◌, Eq,
}

pub data ResourceKind : Type 0 where
  bytes_forwarded connections messages compute_seconds : ResourceKind

unfoldable pub wire_tag : ResourceKind → ℕ
wire_tag bytes_forwarded = 1
wire_tag connections = 2
wire_tag messages = 3
wire_tag compute_seconds = 4

unfoldable pub from_wire_tag : ℕ → Option ResourceKind
from_wire_tag tag =
    if tag == 1
    then some bytes_forwarded
    else if tag == 2
    then some connections
    else if tag == 3
    then some messages
    else if tag == 4
    then some compute_seconds
    else none

-- Derived `PartialEq`.
abbrev pub kind_beq : ResourceKind → ResourceKind → Bool
kind_beq bytes_forwarded bytes_forwarded = true
kind_beq connections connections = true
kind_beq messages messages = true
kind_beq compute_seconds compute_seconds = true
kind_beq _ _ = false

pub kind_beq_iff : (a b : ResourceKind) → (kind_beq a b ≡ true) ↔ (a ≡ b)
kind_beq_iff a b = ground arith

instance abbrev pub kind_eq : Eq ResourceKind
kind_eq = record { beq = kind_beq; beq_iff = kind_beq_iff }

abbrev pub KindMap : Type 0
KindMap = ResourceKind → Option ℕ

abbrev pub no_kinds : KindMap
no_kinds _ = none

abbrev pub set_kind : KindMap → ResourceKind → ℕ → KindMap
set_kind m k v j = if kind_beq k j then some v else m j

abbrev pub count_or_zero : Option ℕ → ℕ
count_or_zero none = 0
count_or_zero (some n) = n

-- Every kind, in the order of the derived `Ord`.
abbrev pub kinds : List ResourceKind
kinds = bytes_forwarded ∷ connections ∷ messages ∷ compute_seconds ∷ []

abbrev pub entries_of : KindMap → List ResourceKind → List (ResourceKind × ℕ)
entries_of m [] = []
entries_of m (k ∷ ks) = elim (m k) [ none ↦ entries_of m ks | some n ↦ (k, n) ∷ entries_of m ks ]

-- The entries of a map, in key order.
abbrev pub entries : KindMap → List (ResourceKind × ℕ)
entries m = entries_of m kinds

-- Decoding a tag succeeds on exactly one kind's tag, and gives that kind back: the two are inverse.
from_wire_tag-wire_tag :
    (tag : ℕ) (k : ResourceKind) → (from_wire_tag tag ≡ some k) ↔ (wire_tag k ≡ tag)
unfolding wire_tag from_wire_tag
from_wire_tag-wire_tag tag bytes_forwarded = ground arith
from_wire_tag-wire_tag tag connections = ground arith
from_wire_tag-wire_tag tag messages = ground arith
from_wire_tag-wire_tag tag compute_seconds = ground arith
