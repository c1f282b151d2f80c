-- ===== src/Gateway/Vanity/Indexes.antt =====
-- Lookups in the reverse index of the allocator in crates/gateway/src/authz.rs after a removal and
-- a push.
use vulos_relay.Base.{
  ◌≡◌, refl, inl, inr, not, Bool-cases, Option, none, some, List, [], ◌∷◌, ◌++◌, Bytes, bytes_eq,
  bytes_beq, bytes_beq_iff, if◌then◌else◌, keep, arith,
}
use vulos_relay.Base.Dict.{get}
use vulos_relay.Gateway.Vanity.{remove_first}

-- No key has two entries.
abbrev pub IsUnique : List (Bytes × Bytes) → Type 0
IsUnique [] = Unit
IsUnique ((k, lp) ∷ rest) = (get rest k ≡ none) × IsUnique rest

pub get-remove_first :
    (r : List (Bytes × Bytes)) (k j : Bytes)
    → IsUnique r
    → get (remove_first k r) j ≡ (if bytes_beq k j then none else get r j)
unfolding get remove_first
get-remove_first [] k j u = ground arith
get-remove_first ((i, lp) ∷ r) k j u = ground (
  arith,
  u.0,
  bytes_beq_iff i k,
  bytes_beq_iff k j,
  bytes_beq_iff i j,
  get-remove_first r k j u.1,
)

pub remove_first-IsUnique :
    (r : List (Bytes × Bytes)) (k : Bytes) → IsUnique r → IsUnique (remove_first k r)
unfolding remove_first
remove_first-IsUnique [] k u = tt
remove_first-IsUnique ((i, lp) ∷ r) k u = elim (Bool-cases (bytes_beq i k)) [
  | inl q ↦ rw (remove_first, q) u.1
  | inr q ↦
      rw (remove_first, q)
        (
          ground (arith, u.0, q, bytes_beq_iff k i, get-remove_first r k i u.1),
          remove_first-IsUnique r k u.1,
        )
]

-- The name that a key keeps when the entries of a name go.
abbrev pub unless_named : Bytes → Option Bytes → Option Bytes
unless_named lp none = none
unless_named lp (some l) = if bytes_beq l lp then none else some l

pub get-keep :
    (r : List (Bytes × Bytes)) (lp j : Bytes)
    → IsUnique r
    → get (keep (λ e. not (bytes_beq e.1 lp)) r) j ≡ unless_named lp (get r j)
unfolding get
get-keep [] lp j u = refl
get-keep ((i, l) ∷ r) lp j u = ground (arith, u.0, bytes_beq_iff i j, get-keep r lp j u.1)

pub keep-IsUnique :
    (r : List (Bytes × Bytes)) (lp : Bytes)
    → IsUnique r
    → IsUnique (keep (λ e. not (bytes_beq e.1 lp)) r)
keep-IsUnique [] lp u = tt
keep-IsUnique ((i, l) ∷ r) lp u = elim (Bool-cases (bytes_beq l lp)) [
  | inl q ↦ rw q (keep-IsUnique r lp u.1)
  | inr q ↦ rw q (ground (arith, u.0, get-keep r lp i u.1), keep-IsUnique r lp u.1)
]

-- The name of a key after an entry is pushed.
abbrev pub or_new : Option Bytes → Option Bytes → Option Bytes
or_new none new = new
or_new (some l) new = some l

pub get-push :
    (r : List (Bytes × Bytes)) (k lp j : Bytes)
    → get (r ++ (k, lp) ∷ []) j ≡ or_new (get r j) (if bytes_beq k j then some lp else none)
unfolding get
get-push [] k lp j = refl
get-push ((i, l) ∷ r) k lp j = ground (arith, get-push r k lp j)

pub push-IsUnique :
    (r : List (Bytes × Bytes)) (k lp : Bytes)
    → IsUnique r
    → get r k ≡ none
    → IsUnique (r ++ (k, lp) ∷ [])
unfolding get
push-IsUnique [] k lp u h = (refl, tt)
push-IsUnique ((i, l) ∷ r) k lp u h = (
  ground (arith, u.0, h, bytes_beq_iff i k, bytes_beq_iff k i, get-push r k lp i),
  push-IsUnique r k lp u.1 (ground (arith, h)),
)
