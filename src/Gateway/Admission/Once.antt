-- ===== src/Gateway/Admission/Once.antt =====
-- A challenge of crates/gateway/src/authz.rs admits once, and within its time it does admit.
use vulos_relay.Base.{
  ℕ, ◌-◌, ◌≡◌, ◌≢◌, refl, ap, sym, ◌∙◌, inl, inr, Bool, none, some, List, [], ◌∷◌, Bytes, bytes_eq,
  bytes_beq_iff, leb, keep, arith,
}
use vulos_relay.Base.Dict.{Dict, get, get-insert, get-remove, get-remove_self}
use vulos_relay.Base.Result.{ok, err}
use vulos_relay.Gateway.Admission.{
  Challenge, Admission, AdmissionError, IdentityRegistry, issue_challenge, admit,
}
use vulos_relay.Gateway.Admission.Sound.{admit_outcome}

-- A call of an admission registry that is running.
pub data Call : Type 0 where
  issues : (nonce : Bytes) (issued_at : ℕ) → Call
  admits : (challenge : Challenge) (key sig : Bytes) (now : ℕ) → Call

-- The calls that do not issue a nonce again.
abbrev pub Avoids : Bytes → List Call → Type 0
Avoids nonce [] = Unit
Avoids nonce (issues n issued_at ∷ calls) = (n ≢ nonce) × Avoids nonce calls
Avoids nonce (admits challenge key sig now ∷ calls) = Avoids nonce calls

module _ (digest : Bytes → Bytes) (verify_domain : (key ds body sig : Bytes) → Bool) where
  unfoldable pub after : IdentityRegistry → Call → IdentityRegistry
  unfolding issue_challenge admit
  after reg (issues nonce issued_at) = (issue_challenge reg nonce issued_at).1
  after reg (admits challenge key sig now) =
      (admit digest verify_domain reg challenge key sig now).1

  unfoldable pub run : IdentityRegistry → List Call → IdentityRegistry
  unfolding after
  run reg [] = reg
  run reg (c ∷ calls) = run (after reg c) calls

  get-keep_none :
      (p : Bytes × ℕ → Bool) (d : Dict Bytes ℕ) (n : Bytes)
      → get d n ≡ none
      → get (keep p d) n ≡ none
  unfolding get
  get-keep_none p [] n h = refl
  get-keep_none p ((k, v) ∷ d) n h = ground (arith, h, get-keep_none p d n)

  issue-absent :
      (reg : IdentityRegistry) (nonce n : Bytes) (issued_at : ℕ)
      → nonce ≢ n
      → get reg.issued_nonces n ≡ none
      → get (issue_challenge reg nonce issued_at).1.issued_nonces n ≡ none
  unfolding issue_challenge
  issue-absent reg nonce n issued_at ne h =
      let left = keep (λ e. leb (issued_at - reg.challenge_ttl_ms) e.1) reg.issued_nonces in
      ground (
        arith,
        get-insert left nonce n issued_at,
        bytes_beq_iff nonce n,
        get-keep_none (λ e. leb (issued_at - reg.challenge_ttl_ms) e.1) reg.issued_nonces n h,
      )

  admit-absent :
      (reg : IdentityRegistry) (challenge : Challenge) (key sig : Bytes) (now : ℕ) (n : Bytes)
      → get reg.issued_nonces n ≡ none
      → get (admit digest verify_domain reg challenge key sig now).1.issued_nonces n ≡ none
  admit-absent reg challenge key sig now n h =
      elim (admit_outcome digest verify_domain reg challenge key sig now) [
        | inr (e, q, why) ↦ ap (λ z. get z.1.issued_nonces n) q ∙ h
        | inl (admission, q, r, a) ↦
            ap (λ z. get z.issued_nonces n) a.spent
            ∙ ground (arith, h, get-remove reg.issued_nonces challenge.nonce n)
      ]

  run-absent :
      (reg : IdentityRegistry) (calls : List Call) (n : Bytes)
      → Avoids n calls
      → get reg.issued_nonces n ≡ none
      → get (run reg calls).issued_nonces n ≡ none
  unfolding run after
  run-absent reg [] n avoids h = h
  run-absent reg (issues nonce issued_at ∷ calls) n avoids h =
      run-absent (after reg (issues nonce issued_at)) calls n avoids.1
        (issue-absent reg nonce n issued_at avoids.0 h)
  run-absent reg (admits challenge key sig now ∷ calls) n avoids h =
      run-absent (after reg (admits challenge key sig now)) calls n avoids
        (admit-absent reg challenge key sig now n h)

  -- Once a challenge has admitted a key, no challenge with its nonce admits any key again, whatever
  -- calls come between, as long as they do not issue the nonce again.
  pub admitted_once :
      (reg : IdentityRegistry) (challenge again : Challenge) (key sig key₁ sig₁ : Bytes)
      (now now₁ : ℕ) (admission : Admission) (calls : List Call)
      → (admit digest verify_domain reg challenge key sig now).0 ≡ ok admission
      → again.nonce ≡ challenge.nonce
      → Avoids challenge.nonce calls
      → (e : AdmissionError) × ((admit digest verify_domain
            (run (admit digest verify_domain reg challenge key sig now).1 calls)
            again
            key₁
            sig₁
            now₁).0
          ≡ err e)
  admitted_once reg challenge again key sig key₁ sig₁ now now₁ admission calls h same avoids =
      let reg₁ = run (admit digest verify_domain reg challenge key sig now).1 calls in
      elim (admit_outcome digest verify_domain reg challenge key sig now) [
        | inr (e, q, why) ↦ elim (differ e admission (sym (ap (λ z. z.0) q) ∙ h)) [ ]
        | inl (ad, q, r, a) ↦
            let gone : get reg₁.issued_nonces challenge.nonce ≡ none =
              run-absent (admit digest verify_domain reg challenge key sig now).1 calls
                challenge.nonce avoids
                (ap (λ z. get z.issued_nonces challenge.nonce) a.spent
                  ∙ get-remove_self reg.issued_nonces challenge.nonce) in
            elim (admit_outcome digest verify_domain reg₁ again key₁ sig₁ now₁) [
              | inr (e, q₁, why) ↦ (e, ap (λ z. z.0) q₁)
              | inl (ad₁, q₁, r₁, a₁) ↦
                  elim (nothing again.issued_at
                    (sym gone ∙ ap (get reg₁.issued_nonces) (sym same) ∙ a₁.issued)) [ ]
            ]
      ]
    where
      differ : (e : AdmissionError) (ad : Admission) → err e ≢ ok ad
      differ e ad x = cc x

      nothing : (n : ℕ) → none ≢ some n
      nothing n x = cc x
