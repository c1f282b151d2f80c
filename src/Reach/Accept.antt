-- ===== src/Reach/Accept.antt =====
-- `AdapterServer::accept_box_connection` of crates/reachability-adapter/src/ingress.rs, from the
-- box's answer to the challenge on, and the box's side of the handshake, of auth.rs. The tunnel that
-- is spawned on the socket is an argument.
pub mod Binding
use vulos_relay.Base.{Bool, ◌==◌, List, ◌++◌, Bytes, codes, length, if◌then◌else◌}
use vulos_relay.Base.Result.{Result, ok, err}
use vulos_relay.Reach.Registry.{
  Registration, RegistryState, RegistryError, RegistrationGuard, register,
}
use vulos_relay.Reach.Wire.{write_registration}
use vulos_relay.Reach.Auth.{
  AuthError, malformed, AuthAnnounce, AuthenticatedRegistration, NonceState, answered,
  signing_preimage, tunnel_auth_ds,
}

pub data TunnelAcceptError : Type 0 where
  auth : AuthError → TunnelAcceptError
  registry : RegistryError → TunnelAcceptError

-- The result of registering, as that of accepting.
abbrev pub from_registry :
    {H : Type 0}
    → NonceState
    → Result RegistryError RegistrationGuard × RegistryState H
    → Result TunnelAcceptError RegistrationGuard × NonceState × RegistryState H
from_registry nonces (ok g, table) = (ok g, nonces, table)
from_registry nonces (err e, table) = (err (registry e), nonces, table)

module _ {H : Type 0} (verify_domain : (key ds preimage signature : Bytes) → Bool) where
  unfoldable pub accept_box_connection :
      NonceState
      → RegistryState H
      → AuthAnnounce
      → Bytes
      → Bytes
      → H
      → Result TunnelAcceptError RegistrationGuard × NonceState × RegistryState H
  accept_box_connection nonces table announce nonce s handle =
      let (result, nonces') = answered verify_domain nonces announce nonce s in
      elim result [
        | err e ↦ (err (auth e), nonces', table)
        | ok (authed, s') ↦
            from_registry nonces'
              (register table authed.registration authed.authenticated_ik handle)
      ]

unfoldable pub write_announce : AuthAnnounce → Bytes
write_announce announce = announce.claimed_ik ++ write_registration announce.registration

-- What the box answers to a challenge; `sign_domain` is its key's.
unfoldable pub authenticate_as_box :
    ((ds preimage : Bytes) → Bytes) → Registration → Bytes → Result AuthError Bytes
authenticate_as_box sign_domain registration nonce =
    let sig = sign_domain tunnel_auth_ds (signing_preimage nonce registration.name) in
    if length sig == 64 then ok sig else err (malformed (codes "IK signature was not 64 bytes"))
