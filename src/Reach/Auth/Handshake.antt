-- ===== src/Reach/Auth/Handshake.antt =====
-- What a completed handshake proves.
use vulos_relay.Base.{◌≡◌, Bool, true, ◌++◌, Bytes, bytes_eq, arith, inl, inr}
use vulos_relay.Base.Result.{ok, Result-cases}
use vulos_relay.Reach.Wire.{read_exact}
use vulos_relay.Reach.Auth.{
  AuthAnnounce, AuthenticatedRegistration, NonceState, answered, is_in, consume, signing_preimage,
  tunnel_auth_ds,
}

module _ (verify_domain : (key ds preimage signature : Bytes) → Bool) where
  -- A registration is authenticated only with a signature that verifies, under the announced key, over
  -- the nonce of this handshake and the announced name, and only if the nonce was pending; the result
  -- is the announced registration under that key.
  pub answered_sound :
      (st st' : NonceState) (announce : AuthAnnounce) (nonce s s' : Bytes)
      (r : AuthenticatedRegistration)
      → answered verify_domain st announce nonce s ≡ (ok (r, s'), st')
      → (sig : Bytes) × (read_exact 64 s ≡ ok (sig, s'))
        × (verify_domain announce.claimed_ik tunnel_auth_ds
              (nonce ++ announce.registration.name)
              sig
            ≡ true)
        × (is_in nonce st.pending ≡ true)
        × (r.registration ≡ announce.registration)
        × (r.authenticated_ik ≡ announce.claimed_ik)
        × (st' ≡ (consume st nonce).1)
  unfolding answered signing_preimage
  answered_sound st st' announce nonce s s' r h = elim (Result-cases (read_exact 64 s)) [
    | inl (e, q) ↦ ground (arith, q)
    | inr ((sig, t), q) ↦ (
      sig,
      ground (arith, q),
      ground (arith, q),
      ground (arith, q),
      ground (arith, q),
      ground (arith, q),
      ground (arith, q),
    )
  ]
