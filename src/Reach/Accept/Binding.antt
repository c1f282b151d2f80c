-- ===== src/Reach/Accept/Binding.antt =====
-- A name in the table is bound to a key that signed for it, and an honest box gets its name.
use vulos_relay.Base.{
  ℕ, ◌≡◌, refl, ap, subst, sym, ◌∙◌, Bool, Bool-cases, true, ltb, take, drop, take-append-drop,
  length-take, some, inl, inr, ◌++◌, append_assoc, arith, Bytes, bytes_eq, length,
}
use vulos_relay.Base.Dict.{get}
use vulos_relay.Base.Result.{Result, ok, err, Result-cases}
use vulos_relay.Reach.Registry.{Registration, RegistryState, RegistrationGuard, RegistryError}
use vulos_relay.Reach.Registry.Ownership.{register-entry}
use vulos_relay.Reach.Wire.{read_exact, write_registration}
use vulos_relay.Reach.Wire.RoundTrip.{IsAcceptable, read-write_registration, read_exact-append}
use vulos_relay.Reach.Auth.{
  AuthAnnounce, NonceState, answered, read_announce, is_in, consume, signing_preimage,
  tunnel_auth_ds,
}
use vulos_relay.Reach.Auth.Handshake.{answered_sound}
use vulos_relay.Reach.Accept.{
  from_registry, accept_box_connection, write_announce, authenticate_as_box,
}

read_fixed : (n : ℕ) (s rest : Bytes) → length s ≡ n → read_exact n (s ++ rest) ≡ ok (s, rest)
read_fixed n s rest e = rw (← e) (read_exact-append s rest)

read_exact-whole :
    (n : ℕ) (s a rest : Bytes) → read_exact n s ≡ ok (a, rest) → (a ++ rest ≡ s) × (length a ≡ n)
unfolding read_exact
read_exact-whole n s a rest h = elim (Bool-cases (ltb (length s) n)) [
  | inl q ↦ ground (arith, h, q)
  | inr q ↦
      let parts : (take n s ≡ a) × (drop n s ≡ rest) = ground (arith, h, q) in
      (
        cc (parts.0, parts.1, take-append-drop n s),
        ap length (sym parts.0) ∙ length-take n s ∙ ground (arith, q),
      )
]

module _ {H : Type 0} (verify_domain : (key ds preimage signature : Bytes) → Bool) where
  -- The entry of a registration's name.
  abbrev IsBound : RegistryState H → Registration → Bytes → H → RegistrationGuard → Type 0
  IsBound table r ik handle g =
      get table.tunnels r.name
      ≡ some (record {
        handle = handle;
        allowed_services = r.allowed_services;
        owner_ik = ik;
        generation = g.generation;
      })

  nonces_kept :
      (n n' : NonceState) (res : Result RegistryError RegistrationGuard × RegistryState H)
      (table' : RegistryState H) (g : RegistrationGuard)
      → from_registry n res ≡ (ok g, n', table')
      → n ≡ n'
  nonces_kept n n' (ok g', table) table' g h = ground (arith, h)
  nonces_kept n n' (err e, table) table' g h = ground (arith, h)

  registry_ok :
      (n n' : NonceState) (res : Result RegistryError RegistrationGuard × RegistryState H)
      (table' : RegistryState H) (g : RegistrationGuard)
      → from_registry n res ≡ (ok g, n', table')
      → res ≡ (ok g, table')
  registry_ok n n' (ok g', table) table' g h = ground (arith, h)
  registry_ok n n' (err e, table) table' g h = ground (arith, h)

  -- A connection that is accepted gave, in the first 64 bytes that were read of it, a signature that
  -- verifies under the announced key over the nonce and the announced name; the nonce was pending and
  -- is consumed; and the table's entry of that name is then this connection's tunnel, with the
  -- announced services, owned by that key.
  pub accept_binds_key :
      (nonces nonces' : NonceState) (table table' : RegistryState H) (announce : AuthAnnounce)
      (nonce s : Bytes) (handle : H) (g : RegistrationGuard)
      → accept_box_connection verify_domain nonces table announce nonce s handle
        ≡ (ok g, nonces', table')
      → ((sig : Bytes) × (rest : Bytes) × (sig ++ rest ≡ s)
          × (length sig ≡ 64)
          × (verify_domain announce.claimed_ik tunnel_auth_ds
                (nonce ++ announce.registration.name)
                sig
              ≡ true))
        × (is_in nonce nonces.pending ≡ true)
        × (nonces' ≡ (consume nonces nonce).1)
        × (get table'.tunnels announce.registration.name
            ≡ some (record {
              handle = handle;
              allowed_services = announce.registration.allowed_services;
              owner_ik = announce.claimed_ik;
              generation = g.generation;
            }))
  unfolding accept_box_connection
  accept_binds_key nonces nonces' table table' announce nonce s handle g =
      elim (Result-cases (answered verify_domain nonces announce nonce s).0) [
        | inl (e, q) ↦ rw (accept_box_connection, q) λ h. ground (arith, h)
        | inr ((authed, s'), q) ↦
            rw (accept_box_connection, q)
              λ h.
                let S =
                  answered_sound verify_domain nonces
                    (answered verify_domain nonces announce nonce s).1 announce nonce s s' authed
                    (ap (λ x. (x, (answered verify_domain nonces announce nonce s).1)) q) in
                (
                  (
                    S.0,
                    s',
                    (read_exact-whole 64 s S.0 s' S.1).0,
                    (read_exact-whole 64 s S.0 s' S.1).1,
                    S.2,
                  ),
                  S.3,
                  sym (
                        nonces_kept (answered verify_domain nonces announce nonce s).1 nonces' _
                          table' g h)
                      ∙ S.6,
                  subst (λ r. IsBound table' r announce.claimed_ik handle g) S.4
                      (subst (λ ik. IsBound table' authed.registration ik handle g) S.5
                        (register-entry table table' authed.registration authed.authenticated_ik
                          handle g
                          (registry_ok (answered verify_domain nonces announce nonce s).1 nonces' _
                            table' g h))),
                )
      ]

announce_read :
    (announce : AuthAnnounce) (rest : Bytes)
    → length announce.claimed_ik ≡ 32
    → IsAcceptable announce.registration
    → read_announce (write_announce announce ++ rest) ≡ ok (announce, rest)
unfolding read_announce write_announce
announce_read announce rest h ok_r =
    rw
      (
        append_assoc announce.claimed_ik (write_registration announce.registration) rest,
        read_announce,
        read_fixed 32 announce.claimed_ik (write_registration announce.registration ++ rest) h,
        read-write_registration announce.registration rest ok_r,
      )
      refl

box_answers :
    (sign_domain : (ds preimage : Bytes) → Bytes) (r : Registration) (nonce : Bytes)
    → length (sign_domain tunnel_auth_ds (signing_preimage nonce r.name)) ≡ 64
    → authenticate_as_box sign_domain r nonce
      ≡ ok (sign_domain tunnel_auth_ds (signing_preimage nonce r.name))
unfolding authenticate_as_box
box_answers sign_domain r nonce h = rw h refl

answer_accepted :
    (verify_domain : (key ds preimage signature : Bytes) → Bool) (st : NonceState)
    (announce : AuthAnnounce) (nonce sig rest : Bytes)
    → length sig ≡ 64
    → is_in nonce st.pending ≡ true
    → verify_domain announce.claimed_ik tunnel_auth_ds
        (signing_preimage nonce announce.registration.name)
        sig
      ≡ true
    → answered verify_domain st announce nonce (sig ++ rest) ≡ (
      ok (
        record { registration = announce.registration; authenticated_ik = announce.claimed_ik },
        rest,
      ),
      (consume st nonce).1,
    )
unfolding answered consume
answer_accepted verify_domain st announce nonce sig rest h live good =
    rw (answered, read_fixed 64 sig rest h, live, good) refl

-- A box that announces an acceptable registration and answers a pending nonce with a signature of
-- 64 bytes that verifies under its key is authenticated for exactly what it announced, and what it
-- sends next is left on the socket.
pub handshake_completes :
    (verify_domain : (key ds preimage signature : Bytes) → Bool)
    (sign_domain : (ds preimage : Bytes) → Bytes) (st : NonceState) (announce : AuthAnnounce)
    (nonce rest₁ rest₂ : Bytes)
    → length announce.claimed_ik ≡ 32
    → IsAcceptable announce.registration
    → is_in nonce st.pending ≡ true
    → length (sign_domain tunnel_auth_ds (signing_preimage nonce announce.registration.name)) ≡ 64
    → verify_domain announce.claimed_ik tunnel_auth_ds
        (signing_preimage nonce announce.registration.name)
        (sign_domain tunnel_auth_ds (signing_preimage nonce announce.registration.name))
      ≡ true
    → (read_announce (write_announce announce ++ rest₁) ≡ ok (announce, rest₁))
      × ((sig : Bytes) × (authenticate_as_box sign_domain announce.registration nonce ≡ ok sig)
          × (answered verify_domain st announce nonce (sig ++ rest₂) ≡ (
            ok (
              record {
                registration = announce.registration;
                authenticated_ik = announce.claimed_ik;
              },
              rest₂,
            ),
            (consume st nonce).1,
          )))
handshake_completes verify_domain sign_domain st announce nonce rest₁ rest₂ h₁ h₂ h₃ h₄ h₅ =
    let sig = sign_domain tunnel_auth_ds (signing_preimage nonce announce.registration.name) in
    (
      announce_read announce rest₁ h₁ h₂,
      (
        sig,
        box_answers sign_domain announce.registration nonce h₄,
        answer_accepted verify_domain st announce nonce sig rest₂ h₄ h₃ h₅,
      ),
    )
