-- ===== src/Gateway/Vanity/Holding.antt =====
-- The two indexes of the allocator in crates/gateway/src/authz.rs agree after every operation.
use vulos_relay.Base.{
  ◌≡◌, ◌≢◌, refl, sym, subst, ◌∙◌, ◌⊎◌, inl, inr, true, Bool-cases, none, some, Option-cases, List,
  [], ◌∷◌, Bytes, bytes_eq, arith,
}
use vulos_relay.Base.Dict.{get}
use vulos_relay.Base.Result.{ok, err}
use vulos_relay.Base.Text.{to_ascii_lowercase, trim, rsplit_once, eq_ignore_ascii_case}
use vulos_relay.Gateway.Vanity.{
  invalid_gateway_domain, is_valid_dns_domain, AliasAllocator, reserve_localpart,
  reserve_directory_address, allocate_vanity, release_vanity, for_domain,
}
use vulos_relay.Gateway.Vanity.Consistent.{
  IsConsistent, reserve_localpart-IsConsistent, allocate_vanity-IsConsistent,
  release_vanity-IsConsistent,
}

-- The calls that change an allocator.
pub data Call : Type 0 where
  allocates : (key local_part : Bytes) → Call
  releases : Bytes → Call
  reserves : Bytes → Call
  reserves_address : Bytes → Call

unfoldable pub after : AliasAllocator → Call → AliasAllocator
unfolding allocate_vanity release_vanity reserve_localpart reserve_directory_address
after m (allocates key local_part) = (allocate_vanity m key local_part).1
after m (releases key) = (release_vanity m key).1
after m (reserves local_part) = reserve_localpart m local_part
after m (reserves_address email) = (reserve_directory_address m email).1

unfoldable pub run : AliasAllocator → List Call → AliasAllocator
unfolding after
run m [] = m
run m (c ∷ calls) = run (after m c) calls

pub reserve_directory_address-cases :
    (m : AliasAllocator) (email : Bytes)
    → ((reserve_directory_address m email).1 ≡ m)
      ⊎ ((lp : Bytes) × ((reserve_directory_address m email).1 ≡ reserve_localpart m lp))
unfolding reserve_directory_address
reserve_directory_address-cases m email = elim (Option-cases (rsplit_once 64 email)) [
  | inl q ↦ rw (reserve_directory_address, q) (inl refl)
  | inr ((lp, dom), q) ↦ elim (Bool-cases (eq_ignore_ascii_case (trim dom) m.domain)) [
    | inl b ↦ rw (reserve_directory_address, q, b) (inr (lp, refl))
    | inr b ↦ rw (reserve_directory_address, q, b) (inl refl)
  ]
]

after-IsConsistent : (m : AliasAllocator) (c : Call) → IsConsistent m → IsConsistent (after m c)
unfolding after
after-IsConsistent m (allocates key local_part) h = allocate_vanity-IsConsistent m key local_part h
after-IsConsistent m (releases key) h = release_vanity-IsConsistent m key h
after-IsConsistent m (reserves local_part) h = reserve_localpart-IsConsistent m local_part h
after-IsConsistent m (reserves_address email) h = elim (reserve_directory_address-cases m email) [
  | inl e ↦ subst IsConsistent (sym e) h
  | inr (lp, e) ↦ subst IsConsistent (sym e) (reserve_localpart-IsConsistent m lp h)
]

run-IsConsistent :
    (m : AliasAllocator) (calls : List Call) → IsConsistent m → IsConsistent (run m calls)
unfolding run
run-IsConsistent m [] h = h
run-IsConsistent m (c ∷ calls) h = run-IsConsistent (after m c) calls (after-IsConsistent m c h)

nobody : (k : Bytes) → none ≢ some k
nobody k e = cc e

abbrev empty : Bytes → AliasAllocator
empty d = record { domain = d; vanity = []; reverse = []; reserved = [] }

empty-IsConsistent : (d : Bytes) → IsConsistent (empty d)
unfolding get
empty-IsConsistent d = record {
  unique = tt;
  owner = λ lp k e. elim (nobody k e) [ ];
  name = λ lp k e. elim (nobody lp e) [ ];
  free = λ lp k e. elim (nobody k e) [ ];
  wellnamed = λ lp k e. elim (nobody k e) [ ];
}

pub for_domain-ok :
    (raw : Bytes) (m : AliasAllocator)
    → for_domain raw ≡ ok m
    → (empty (to_ascii_lowercase (trim raw)) ≡ m)
      × (is_valid_dns_domain (to_ascii_lowercase (trim raw)) ≡ true)
unfolding for_domain
for_domain-ok raw m h = elim (Bool-cases (is_valid_dns_domain (to_ascii_lowercase (trim raw)))) [
  | inl q ↦ (ground (arith, h, q), q)
  | inr q ↦ elim (failed (sym (rw (for_domain, q) refl) ∙ h)) [ ]
]
  where
    failed : err (invalid_gateway_domain raw) ≢ ok m
    failed e = cc e

pub started-IsConsistent :
    (raw : Bytes) (m : AliasAllocator) (calls : List Call)
    → for_domain raw ≡ ok m
    → IsConsistent (run m calls)
started-IsConsistent raw m calls h = run-IsConsistent m calls (
    subst IsConsistent (for_domain-ok raw m h).0
      (empty-IsConsistent (to_ascii_lowercase (trim raw))))
