-- ===== src/Gateway/Vanity/Consistent.antt =====
-- Each operation of the allocator in crates/gateway/src/authz.rs keeps its two indexes in agreement.
use vulos_relay.Base.{
  ◌≡◌, refl, subst, inl, inr, false, Bool-cases, none, some, Option-cases, Bytes, bytes_eq,
  bytes_beq, bytes_beq_iff, arith,
}
use vulos_relay.Base.Dict.{get, get-insert, get-remove}
use vulos_relay.Base.Result.{Result-cases}
use vulos_relay.Base.Text.{to_ascii_lowercase, trim}
use vulos_relay.Gateway.Vanity.{
  AliasAllocator, contains, reserve, reserve_localpart, check_vanity, drop_prior, bind, claim,
  allocate_vanity, release_vanity,
}
use vulos_relay.Gateway.Vanity.Names.{IsVanityName, check_vanity-ok}
use vulos_relay.Gateway.Vanity.Indexes.{
  IsUnique, get-remove_first, remove_first-IsUnique, get-keep, keep-IsUnique, get-push,
  push-IsUnique,
}

-- The indexes are inverse to each other, and every name that is held is a vanity name that the
-- directory has not reserved.
pub record IsConsistent (m : AliasAllocator) : Type 0 where
  pub unique : IsUnique m.reverse
  pub owner : (lp k : Bytes) → get m.vanity lp ≡ some k → get m.reverse k ≡ some lp
  pub name : (lp k : Bytes) → get m.reverse k ≡ some lp → get m.vanity lp ≡ some k
  pub free : (lp k : Bytes) → get m.vanity lp ≡ some k → contains m.reserved lp ≡ false
  pub wellnamed : (lp k : Bytes) → get m.vanity lp ≡ some k → IsVanityName lp

reserve-IsConsistent :
    (m : AliasAllocator) (lp : Bytes) → IsConsistent m → IsConsistent (reserve m lp)
unfolding reserve
reserve-IsConsistent m lp c = record {
  unique = keep-IsUnique m.reverse lp c.unique;
  owner = λ l k h. ground (
    arith,
    h,
    get-remove m.vanity lp l,
    c.owner l k,
    get-keep m.reverse lp k c.unique,
    bytes_beq_iff l lp,
    bytes_beq_iff lp l,
  );
  name = λ l k h. ground (
    arith,
    h,
    get-remove m.vanity lp l,
    c.name l k,
    get-keep m.reverse lp k c.unique,
    bytes_beq_iff l lp,
    bytes_beq_iff lp l,
  );
  free = λ l k h.
      ground
        (arith, h, get-remove m.vanity lp l, c.free l k, bytes_beq_iff l lp, bytes_beq_iff lp l);
  wellnamed = λ l k h. c.wellnamed l k (ground (arith, h, get-remove m.vanity lp l));
}

drop_prior-IsConsistent :
    (m : AliasAllocator) (k : Bytes) → IsConsistent m → IsConsistent (drop_prior m k)
unfolding drop_prior
drop_prior-IsConsistent m k c = elim (Option-cases (get m.reverse k)) [
  | inl q ↦ rw (drop_prior, q) c
  | inr (old, q) ↦
      rw (drop_prior, q)
        (record {
          unique = remove_first-IsUnique m.reverse k c.unique;
          owner = λ l j h. ground (
            arith,
            h,
            q,
            get-remove m.vanity old l,
            c.owner l j,
            get-remove_first m.reverse k j c.unique,
            bytes_beq_iff old l,
            bytes_beq_iff k j,
          );
          name = λ l j h. ground (
            arith,
            h,
            q,
            get-remove m.vanity old l,
            c.name l j,
            c.name old k,
            bytes_beq_iff old l,
            get-remove_first m.reverse k j c.unique,
            bytes_beq_iff k j,
          );
          free = λ l j h. c.free l j (ground (arith, h, get-remove m.vanity old l));
          wellnamed = λ l j h. c.wellnamed l j (ground (arith, h, get-remove m.vanity old l));
        })
]

-- What is left after the key's prior name went.
drop_prior-left :
    (m : AliasAllocator) (k lp : Bytes)
    → IsConsistent m
    → get m.vanity lp ≡ none
    → (get (drop_prior m k).reverse k ≡ none)
      × (get (drop_prior m k).vanity lp ≡ none)
      × ((drop_prior m k).reserved ≡ m.reserved)
unfolding drop_prior
drop_prior-left m k lp c h = elim (Option-cases (get m.reverse k)) [
  | inl q ↦ rw (drop_prior, q) (q, h, refl)
  | inr (old, q) ↦
      rw (drop_prior, q)
        (
          ground (arith, get-remove_first m.reverse k k c.unique, bytes_beq_iff k k),
          ground (arith, h, get-remove m.vanity old lp),
          refl,
        )
]

bind-IsConsistent :
    (m : AliasAllocator) (k lp : Bytes)
    → IsConsistent m
    → get m.reverse k ≡ none
    → get m.vanity lp ≡ none
    → contains m.reserved lp ≡ false
    → IsVanityName lp
    → IsConsistent (bind m k lp)
unfolding bind
bind-IsConsistent m k lp c hk hl hr hn = record {
  unique = push-IsUnique m.reverse k lp c.unique hk;
  owner = λ l j h. ground (
    arith,
    h,
    hk,
    hl,
    get-insert m.vanity lp l k,
    c.owner l j,
    get-push m.reverse k lp j,
    bytes_beq_iff lp l,
    bytes_beq_iff k j,
  );
  name = λ l j h. ground (
    arith,
    h,
    hk,
    hl,
    get-insert m.vanity lp l k,
    c.name l j,
    get-push m.reverse k lp j,
    bytes_beq_iff lp l,
    bytes_beq_iff k j,
  );
  free = λ l j h. elim (Bool-cases (bytes_beq lp l)) [
    | inl q ↦ subst (λ x. contains m.reserved x ≡ false) ((bytes_beq_iff lp l).0 q) hr
    | inr q ↦ c.free l j (ground (arith, h, q, get-insert m.vanity lp l k))
  ];
  wellnamed = λ l j h. elim (Bool-cases (bytes_beq lp l)) [
    | inl q ↦ subst IsVanityName ((bytes_beq_iff lp l).0 q) hn
    | inr q ↦ c.wellnamed l j (ground (arith, h, q, get-insert m.vanity lp l k))
  ];
}

pub allocate_vanity-IsConsistent :
    (m : AliasAllocator) (k local_part : Bytes)
    → IsConsistent m
    → IsConsistent (allocate_vanity m k local_part).1
unfolding allocate_vanity claim
allocate_vanity-IsConsistent m k local_part c = elim (Result-cases (check_vanity m local_part)) [
  | inl (e, q) ↦ rw (allocate_vanity, q) c
  | inr (lp, q) ↦ elim (Option-cases (get m.vanity lp)) [
    | inr (existing, v) ↦ elim (Bool-cases (bytes_beq existing k)) [
      | inl b ↦ rw (allocate_vanity, q, claim, v, b) c
      | inr b ↦ rw (allocate_vanity, q, claim, v, b) c
    ]
    | inl v ↦
        let left = drop_prior-left m k lp c v in
        let checked = check_vanity-ok m local_part lp q in
        rw (allocate_vanity, q, claim, v)
          (bind-IsConsistent (drop_prior m k) k lp (drop_prior-IsConsistent m k c) left.0 left.1
            (cc (left.2, checked.1)) checked.0)
  ]
]

pub release_vanity-IsConsistent :
    (m : AliasAllocator) (k : Bytes) → IsConsistent m → IsConsistent (release_vanity m k).1
unfolding release_vanity
release_vanity-IsConsistent m k c = elim (Option-cases (get m.reverse k)) [
  | inl q ↦ rw (release_vanity, q) c
  | inr (lp, q) ↦ rw (release_vanity, q) (drop_prior-IsConsistent m k c)
]

pub reserve_localpart-IsConsistent :
    (m : AliasAllocator) (lp : Bytes) → IsConsistent m → IsConsistent (reserve_localpart m lp)
unfolding reserve_localpart
reserve_localpart-IsConsistent m lp = reserve-IsConsistent m (to_ascii_lowercase (trim lp))
