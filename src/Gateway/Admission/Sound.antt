-- ===== src/Gateway/Admission/Sound.antt =====
-- What an admission of crates/gateway/src/authz.rs takes, and what it leaves.
use vulos_relay.Base.{
  ℕ, ◌+◌, ◌≤◌, ◌≡◌, ◌≢◌, refl, sym, Option, none, ◌++◌, [], codes, bytes_beq, find, ap, ◌∙◌, ◌⊎◌,
  inl, inr, Bool, true, false, Bool-cases, some, Option-cases, Bytes, bytes_eq, ◌==◌, arith,
}
use vulos_relay.Base.Dict.{get, remove}
use vulos_relay.Base.Result.{ok, err}
use vulos_relay.Gateway.Vanity.{key_fingerprint}
use vulos_relay.Gateway.Admission.{
  AuthzMode, open_public, key_registered, unknown_key, RegisteredIdentity, Challenge, signing_body,
  admission_ds, Admission, AdmissionError, challenge_expired, bad_signature,
  unknown_or_consumed_challenge, IdentityRegistry, peek_issued_at, consume_nonce, is_stale,
  identity_for_key, resolve_key, spend, admit,
}

module _ (digest : Bytes → Bytes) (verify_domain : (key ds body sig : Bytes) → Bool) where
  -- What holds of an admission that succeeded, from the registry `reg` to the registry `reg₁`.
  pub record IsAdmitted (reg : IdentityRegistry) (challenge : Challenge) (key sig : Bytes) (now : ℕ)
      (reg₁ : IdentityRegistry) : Type 0 where
    pub issued : get reg.issued_nonces challenge.nonce ≡ some challenge.issued_at
    pub not_early : challenge.issued_at ≤ now
    pub not_late : now ≤ challenge.issued_at + reg.challenge_ttl_ms
    pub proven : verify_domain key admission_ds (signing_body challenge) sig ≡ true
    pub spent : reg₁ ≡ record reg { issued_nonces = remove reg.issued_nonces challenge.nonce }

  -- The identity that is registered with the key.
  abbrev pub registered : IdentityRegistry → Bytes → Option RegisteredIdentity
  registered reg key = find (λ id. bytes_beq id.public_key key) reg.entries

  -- Who an admitted key is: the account and the domain of the identity that is registered with it;
  -- or, at a gateway that is open to the public, an anonymous account named after the key.
  abbrev pub IsIdentified : IdentityRegistry → Bytes → Admission → Type 0
  IsIdentified reg key admission =
      ((id : RegisteredIdentity) × (registered reg key ≡ some id)
        × (admission ≡ record { account = id.account; domain = id.domain; public_key = key }))
      ⊎ ((reg.mode ≡ open_public)
          × (registered reg key ≡ none)
          × (admission ≡ record {
            account = codes "anon:" ++ key_fingerprint digest key;
            domain = [];
            public_key = key;
          }))

  -- Why an attempt is refused, with the error that says so.
  abbrev pub IsRefused :
      IdentityRegistry → Challenge → (key sig : Bytes) → ℕ → AdmissionError → Type 0
  IsRefused reg challenge key sig now e =
      ((e ≡ challenge_expired) × (is_stale reg challenge now ≡ true))
      ⊎ ((e ≡ bad_signature)
          × (verify_domain key admission_ds (signing_body challenge) sig ≡ false))
      ⊎ ((e ≡ unknown_key) × (reg.mode ≡ key_registered) × (registered reg key ≡ none))
      ⊎ ((e ≡ unknown_or_consumed_challenge)
          × (get reg.issued_nonces challenge.nonce ≢ some challenge.issued_at))

  AuthzMode-cases : (mode : AuthzMode) → (mode ≡ open_public) ⊎ (mode ≡ key_registered)
  AuthzMode-cases open_public = inl refl
  AuthzMode-cases key_registered = inr refl

  resolve_key-outcome :
      (reg : IdentityRegistry) (key : Bytes)
      → ((admission : Admission) × (resolve_key digest verify_domain reg key ≡ ok admission)
          × IsIdentified reg key admission)
        ⊎ ((resolve_key digest verify_domain reg key ≡ err unknown_key)
            × (reg.mode ≡ key_registered)
            × (registered reg key ≡ none))
  unfolding resolve_key identity_for_key
  resolve_key-outcome reg key = elim (Option-cases (registered reg key)) [
    | inr (id, q) ↦ inl (_, rw (resolve_key, q) refl, inl (id, q, refl))
    | inl q ↦ elim (AuthzMode-cases reg.mode) [
      | inl m ↦ inl (_, rw (resolve_key, q, m) refl, inr (m, q, refl))
      | inr m ↦ inr (rw (resolve_key, q, m) refl, m, q)
    ]
  ]

  consume_nonce-outcome :
      (reg : IdentityRegistry) (nonce : Bytes) (presented : ℕ)
      → ((get reg.issued_nonces nonce ≡ some presented)
          × (consume_nonce reg nonce presented
              ≡ (ok presented, record reg { issued_nonces = remove reg.issued_nonces nonce })))
        ⊎ ((consume_nonce reg nonce presented ≡ (err unknown_or_consumed_challenge, reg))
            × (get reg.issued_nonces nonce ≢ some presented))
  unfolding consume_nonce
  consume_nonce-outcome reg nonce presented = elim (Option-cases (get reg.issued_nonces nonce)) [
    | inl q ↦ inr (rw (consume_nonce, q) refl, λ e. missing presented (sym q ∙ e))
    | inr (stored, q) ↦ elim (Bool-cases (stored == presented)) [
      | inl b ↦
          let e : stored ≡ presented = ground (arith, b) in
          inl (q ∙ ap some e, rw (consume_nonce, q, b) (cc e))
      | inr b ↦ inr (rw (consume_nonce, q, b) refl, λ e. another stored presented b (sym q ∙ e))
    ]
  ]
    where
      missing : (n : ℕ) → none ≢ some n
      missing n e = cc e

      another : (m n : ℕ) → (m == n) ≡ false → some m ≢ some n
      another m n h e = ground (arith, h, e)

  spend-outcome :
      (reg : IdentityRegistry) (challenge : Challenge) (admission : Admission)
      → ((get reg.issued_nonces challenge.nonce ≡ some challenge.issued_at)
          × (spend digest verify_domain reg challenge admission ≡ (
            ok admission,
            record reg { issued_nonces = remove reg.issued_nonces challenge.nonce },
          )))
        ⊎ ((spend digest verify_domain reg challenge admission
              ≡ (err unknown_or_consumed_challenge, reg))
            × (get reg.issued_nonces challenge.nonce ≢ some challenge.issued_at))
  unfolding spend
  spend-outcome reg challenge admission =
      elim (consume_nonce-outcome reg challenge.nonce challenge.issued_at) [
        | inl (q, e) ↦ inl (q, rw (spend, ap (λ z. z.0) e) (ap (λ z. (ok admission, z.1)) e))
        | inr (e, differs) ↦ inr (
          rw (spend, ap (λ z. z.0) e) (ap (λ z. (err unknown_or_consumed_challenge, z.1)) e),
          differs,
        )
      ]

  not_stale :
      (reg : IdentityRegistry) (challenge : Challenge) (now : ℕ)
      → is_stale reg challenge now ≡ false
      → get reg.issued_nonces challenge.nonce ≡ some challenge.issued_at
      → (challenge.issued_at ≤ now) × (now ≤ challenge.issued_at + reg.challenge_ttl_ms)
  unfolding is_stale peek_issued_at
  not_stale reg challenge now h q = (ground (arith, h, q), ground (arith, h, q))

  -- An attempt either is admitted, as the identity that is registered with the key or, where the
  -- gateway is open to the public and the key is not registered, as an anonymous account named after
  -- the key, with the challenge issued at the presented time, fresh, signed by the key and now spent;
  -- or it is refused and the registry is as it was, with the error that fits: the challenge is stale,
  -- the signature does not verify, a gateway that wants registered keys has not this one, or the
  -- challenge is not pending with the presented time.
  pub admit_outcome :
      (reg : IdentityRegistry) (challenge : Challenge) (key sig : Bytes) (now : ℕ)
      → ((admission : Admission) × ((admit digest verify_domain reg challenge key sig now).0
            ≡ ok admission)
          × IsIdentified reg key admission
          × IsAdmitted reg challenge key sig now
              (admit digest verify_domain reg challenge key sig now).1)
        ⊎ ((e : AdmissionError) × (admit digest verify_domain reg challenge key sig now
              ≡ (err e, reg))
            × IsRefused reg challenge key sig now e)
  unfolding admit
  admit_outcome reg challenge key sig now = elim (Bool-cases (is_stale reg challenge now)) [
    | inl q ↦ inr (challenge_expired, rw (admit, q) refl, inl (refl, q))
    | inr q ↦ elim (Bool-cases (verify_domain key admission_ds (signing_body challenge) sig)) [
      | inr v ↦ inr (bad_signature, rw (admit, q, v) refl, inr (inl (refl, v)))
      | inl v ↦ elim (resolve_key-outcome reg key) [
        | inr (r, mode, unknown) ↦
            inr (unknown_key, rw (admit, q, v, r) refl, inr (inr (inl (refl, mode, unknown))))
        | inl (admission, r, who) ↦ elim (spend-outcome reg challenge admission) [
          | inr (s, differs) ↦ inr (
            unknown_or_consumed_challenge,
            rw (admit, q, v, r) s,
            inr (inr (inr (refl, differs))),
          )
          | inl (stored, s) ↦
              let (early, late) = not_stale reg challenge now q stored in
              inl (
                admission,
                rw (admit, q, v, r) (ap (λ z. z.0) s),
                who,
                record {
                  issued = stored;
                  not_early = early;
                  not_late = late;
                  proven = v;
                  spent = rw (admit, q, v, r) (ap (λ z. z.1) s);
                },
              )
        ]
      ]
    ]
  ]
