-- ===== src/Gateway/Vanity/Resolving.antt =====
-- The address that the allocator of crates/gateway/src/authz.rs presents for a key resolves to it.
use vulos_relay.Base.{
  ℕ, ◌≡◌, ◌≢◌, refl, sym, ap, ◌∙◌, ◌⊎◌, inl, inr, Bool, true, false, not, Bool-cases, some,
  Option-cases, List, [], ◌∷◌, ◌++◌, Bytes, bytes_beq, bytes_beq_iff, bytes_eq, beq_self, leb, ◌==◌,
  ◌&&◌, ◌||◌, length, take, All, any, find, arith,
}
use vulos_relay.Base.Dict.{get}
use vulos_relay.Base.Result.{ok, Result-cases}
use vulos_relay.Base.Text.{
  to_lower, to_ascii_lowercase, trim, split, rsplit_once, every, is_ascii_alphanumeric, into,
}
use vulos_relay.Base.Trimming.{is_printable, trim-printable, rsplit_once-at}
use vulos_relay.Gateway.Alias.Token.{base32_lower, base32_lower_lem, IsDigit, base32_alphabet}
use vulos_relay.Gateway.Forwarded.{is_valid_label, is_valid_domain}
use vulos_relay.Gateway.Vanity.{
  AliasAllocator, is_valid_dns_domain, is_vanity_byte, is_valid_vanity_charset, qualify,
  key_derived_localpart, alias_for, resolve_local, resolve, drop_prior, bind, claim, check_vanity,
  allocate_vanity, release_vanity, reserve, reserve_localpart, for_domain,
}
use vulos_relay.Gateway.Vanity.Names.{lower_idem, key_derived_localpart-IsDerived}
use vulos_relay.Gateway.Vanity.Consistent.{IsConsistent}
use vulos_relay.Gateway.Vanity.Holding.{
  Call, allocates, releases, reserves, reserves_address, after, run,
  reserve_directory_address-cases, for_domain-ok, started-IsConsistent,
}

-- A byte of a local part or a domain: printable, not an `@`.
abbrev is_plain : ℕ → Bool
is_plain c = is_printable c && not (c == 64)

label-plain : (label : Bytes) → is_valid_label label ≡ true → every is_plain label ≡ true
unfolding is_valid_label
label-plain label h = alnum label (ground (arith, h))
  where
    alnum :
        (s : Bytes)
        → every (λ c. is_ascii_alphanumeric c || c == 45) s ≡ true
        → every is_plain s ≡ true
    alnum [] e = refl
    alnum (c ∷ s) e = ground (arith, e, alnum s)

into-every :
    (p : ℕ → Bool) (c : ℕ) (ws : List Bytes)
    → every (every p) (into c ws) ≡ (p c && every (every p) ws)
into-every p c [] = ground arith
into-every p c (w ∷ ws) = ground arith

labels-plain : (s : Bytes) → every (every is_plain) (split 46 s) ≡ true → every is_plain s ≡ true
unfolding split
labels-plain [] h = refl
labels-plain (c ∷ s) h = ground (arith, h, into-every is_plain c (split 46 s), labels-plain s)

every_mono :
    {A : Type 0} (p q : A → Bool)
    → ((x : A) → p x ≡ true → q x ≡ true)
    → (xs : List A) → every p xs ≡ true
    → every q xs ≡ true
every_mono p q f [] h = refl
every_mono p q f (x ∷ xs) h = ground (arith, h, f x, every_mono p q f xs)

vanity-plain : (lp : Bytes) → is_valid_vanity_charset lp ≡ true → every is_plain lp ≡ true
unfolding is_valid_vanity_charset
vanity-plain lp h =
    every_mono is_vanity_byte is_plain (λ c e. ground (arith, e)) lp (ground (arith, h))

digits-plain : (s : Bytes) → All IsDigit s → every is_plain s ≡ true
digits-plain [] h = refl
digits-plain (c ∷ s) h = ground (arith, digit-plain c h.0, digits-plain s h.1)
  where
    digit-plain : (c : ℕ) → any (λ d. d == c) base32_alphabet ≡ true → is_plain c ≡ true
    digit-plain c e = ground (arith, e)

-- A byte that is no upper-case letter.
small : (c : ℕ) → (leb 65 c && leb c 90) ≡ false → to_lower c ≡ c
unfolding to_lower
small c h = ground (arith, h)

digits-lower : (s : Bytes) → All IsDigit s → to_ascii_lowercase s ≡ s
unfolding to_ascii_lowercase
digits-lower [] h = refl
digits-lower (c ∷ s) h = cc (digit-lower c h.0, digits-lower s h.1)
  where
    digit-lower : (c : ℕ) → any (λ d. d == c) base32_alphabet ≡ true → to_lower c ≡ c
    digit-lower c e = small c (ground (arith, e))

plain_text :
    (lp d : Bytes)
    → every is_plain lp ≡ true
    → every is_plain d ≡ true
    → every is_printable (lp ++ 64 ∷ d) ≡ true
plain_text [] d hl hd = every_mono is_plain is_printable (λ c e. ground (arith, e)) d hd
plain_text (c ∷ lp) d hl hd = ground (arith, hl, plain_text lp d)

lower-append :
    (s t : Bytes) → to_ascii_lowercase (s ++ t) ≡ to_ascii_lowercase s ++ to_ascii_lowercase t
unfolding to_ascii_lowercase
lower-append [] t = refl
lower-append (c ∷ s) t = cc (lower-append s t)

lower-at : (d : Bytes) → to_ascii_lowercase (64 ∷ d) ≡ 64 ∷ to_ascii_lowercase d
unfolding to_ascii_lowercase to_lower
lower-at d = refl

lower-join :
    (lp d : Bytes)
    → to_ascii_lowercase lp ≡ lp
    → to_ascii_lowercase d ≡ d
    → to_ascii_lowercase (lp ++ 64 ∷ d) ≡ lp ++ 64 ∷ d
lower-join lp d hl hd = cc (lower-append lp (64 ∷ d), lower-at d, hl, hd)

-- What `resolve` makes of a qualified name in lower case.
resolve-qualify :
    (digest : Bytes → Bytes) (m : AliasAllocator) (lp : Bytes) (keys : List Bytes)
    → to_ascii_lowercase lp ≡ lp
    → to_ascii_lowercase m.domain ≡ m.domain
    → every is_plain lp ≡ true
    → every is_plain m.domain ≡ true
    → resolve digest m (qualify m lp) keys ≡ resolve_local digest m lp keys
unfolding resolve
resolve-qualify digest m lp keys hl hd pl pd =
    let text = qualify m lp in
    let trimmed : trim text ≡ text = trim-printable text (plain_text lp m.domain pl pd) in
    let lowered : to_ascii_lowercase text ≡ text = lower-join lp m.domain hl hd in
    let cut : rsplit_once 64 text ≡ some (lp, m.domain) =
      rsplit_once-at 64 lp m.domain
        (every_mono is_plain (λ c. not (c == 64)) (λ c e. ground (arith, e)) m.domain pd) in
    rw (resolve, ap (rsplit_once 64) (ap to_ascii_lowercase trimmed ∙ lowered) ∙ cut)
      (ground (arith, bytes_beq_iff m.domain m.domain))

-- The calls leave the domain as it is.
drop_prior-domain : (m : AliasAllocator) (k : Bytes) → (drop_prior m k).domain ≡ m.domain
unfolding drop_prior
drop_prior-domain m k = elim (Option-cases (get m.reverse k)) [
  | inl q ↦ rw (drop_prior, q) refl
  | inr (old, q) ↦ rw (drop_prior, q) refl
]

claim-domain :
    (m : AliasAllocator) (k local_part lp : Bytes) → (claim m k local_part lp).1.domain ≡ m.domain
unfolding claim bind
claim-domain m k local_part lp = elim (Option-cases (get m.vanity lp)) [
  | inl q ↦ rw (claim, q) (drop_prior-domain m k)
  | inr (j, q) ↦ elim (Bool-cases (bytes_beq j k)) [
    | inl b ↦ rw (claim, q, b) refl
    | inr b ↦ rw (claim, q, b) refl
  ]
]

after-domain : (m : AliasAllocator) (c : Call) → (after m c).domain ≡ m.domain
unfolding after allocate_vanity release_vanity reserve_localpart reserve
after-domain m (allocates k local_part) = elim (Result-cases (check_vanity m local_part)) [
  | inl (e, q) ↦ rw (after, allocate_vanity, q) refl
  | inr (lp, q) ↦ rw (after, allocate_vanity, q) (claim-domain m k local_part lp)
]
after-domain m (releases k) = elim (Option-cases (get m.reverse k)) [
  | inl q ↦ rw (after, release_vanity, q) refl
  | inr (lp, q) ↦ rw (after, release_vanity, q) (drop_prior-domain m k)
]
after-domain m (reserves local_part) = refl
after-domain m (reserves_address email) = elim (reserve_directory_address-cases m email) [
  | inl e ↦ ap (λ x. x.domain) e
  | inr (lp, e) ↦ ap (λ x. x.domain) e
]

run-domain : (m : AliasAllocator) (calls : List Call) → (run m calls).domain ≡ m.domain
unfolding run
run-domain m [] = refl
run-domain m (c ∷ calls) = run-domain (after m c) calls ∙ after-domain m c

-- A key is found by its derived name, where it is registered and no other key has that name.
find-derived :
    (digest : Bytes → Bytes) (k : Bytes) (keys : List Bytes)
    → any (λ j. bytes_beq j k) keys ≡ true
    → All (λ j. (key_derived_localpart digest j ≢ key_derived_localpart digest k) ⊎ (j ≡ k)) keys
    → find (λ j. bytes_beq (key_derived_localpart digest j) (key_derived_localpart digest k)) keys
      ≡ some k
find-derived digest k [] h one = cc h
find-derived digest k (j ∷ keys) h one =
    elim (Bool-cases
      (bytes_beq (key_derived_localpart digest j) (key_derived_localpart digest k))) [
        | inl q ↦ rw q (
            ap some (elim one.0 [
              | inr e ↦ e
              | inl ne ↦
                  elim (ne (
                    (bytes_beq_iff (key_derived_localpart digest j)
                        (key_derived_localpart digest k)).0
                      q)) [ ]
            ]))
        | inr q ↦ rw q (
            find-derived digest k keys
              (ground (arith, h, q, bytes_beq_iff j k, beq_self (key_derived_localpart digest j)))
              one.1)
      ]

domain-plain : (d : Bytes) → is_valid_dns_domain d ≡ true → every is_plain d ≡ true
unfolding is_valid_dns_domain is_valid_domain
domain-plain d h =
    labels-plain d
      (every_mono is_valid_label (every is_plain) label-plain (split 46 d) (ground (arith, h)))

differ : true ≢ false
differ e = cc e

derived-plain :
    (digest : Bytes → Bytes) (k : Bytes) → every is_plain (key_derived_localpart digest k) ≡ true
unfolding key_derived_localpart
derived-plain digest k =
    digits-plain (base32_lower (take 10 (digest k))) (base32_lower_lem (take 10 (digest k))).1

derived-lower :
    (digest : Bytes → Bytes) (k : Bytes)
    → to_ascii_lowercase (key_derived_localpart digest k) ≡ key_derived_localpart digest k
unfolding key_derived_localpart to_ascii_lowercase to_lower
derived-lower digest k =
    ap (◌∷◌ 107)
      (digits-lower (base32_lower (take 10 (digest k))) (base32_lower_lem (take 10 (digest k))).1)

-- The local part that `alias_for` gives a key.
resolve_local-alias :
    (digest : Bytes → Bytes) (m : AliasAllocator) (k : Bytes) (keys : List Bytes)
    → IsConsistent m
    → length (take 10 (digest k)) ≡ 10
    → any (λ j. bytes_beq j k) keys ≡ true
    → All (λ j. (key_derived_localpart digest j ≢ key_derived_localpart digest k) ⊎ (j ≡ k)) keys
    → to_ascii_lowercase m.domain ≡ m.domain
    → every is_plain m.domain ≡ true
    → resolve digest m (alias_for digest m k) keys ≡ some k
unfolding alias_for resolve_local
resolve_local-alias digest m k keys c long there one hd pd = elim (Option-cases (get m.reverse k)) [
  | inr (lp, q) ↦
      let held = c.name lp k q in
      let w = c.wellnamed lp k held in
      rw (alias_for, q)
        (resolve-qualify digest m lp keys w.lower hd (vanity-plain lp w.charset) pd
          ∙ rw (resolve_local, held) refl)
  | inl q ↦
      let lp = key_derived_localpart digest k in
      rw (alias_for, q)
        (resolve-qualify digest m lp keys (derived-lower digest k) hd (derived-plain digest k) pd
          ∙ elim (Option-cases (get m.vanity lp)) [
            | inl v ↦ rw (resolve_local, v) (find-derived digest k keys there one)
            | inr (j, v) ↦
                elim (differ (
                  sym (key_derived_localpart-IsDerived digest k long)
                  ∙ (c.wellnamed lp j v).chosen)) [ ]
          ])
]

-- After any calls on an allocator: the address that it presents for a key resolves to that key, where
-- the key is registered, no other registered key has the same derived name, and its content address
-- has at least ten bytes.
pub alias_for-resolves :
    (digest : Bytes → Bytes) (raw : Bytes) (m : AliasAllocator) (calls : List Call) (k : Bytes)
    (keys : List Bytes)
    → for_domain raw ≡ ok m
    → length (take 10 (digest k)) ≡ 10
    → any (λ j. bytes_beq j k) keys ≡ true
    → All (λ j. (key_derived_localpart digest j ≢ key_derived_localpart digest k) ⊎ (j ≡ k)) keys
    → resolve digest (run m calls) (alias_for digest (run m calls) k) keys ≡ some k
alias_for-resolves digest raw m calls k keys h long there one =
    let started = for_domain-ok raw m h in
    let d : (run m calls).domain ≡ to_ascii_lowercase (trim raw) =
      run-domain m calls ∙ sym (ap (λ x. x.domain) started.0) in
    resolve_local-alias digest (run m calls) k keys (started-IsConsistent raw m calls h) long there
      one (ap to_ascii_lowercase d ∙ lower_idem (trim raw) ∙ sym d)
      (ap (every is_plain) d ∙ domain-plain (to_ascii_lowercase (trim raw)) started.1)
