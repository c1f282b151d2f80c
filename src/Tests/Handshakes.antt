-- ===== src/Tests/Handshakes.antt =====
-- The handshake on small inputs.
use vulos_relay.Base.{
  ℕ, ◌≡◌, refl, Bool, true, false, some, [], ◌∷◌, ◌++◌, Bytes, bytes_eq, bytes_beq, length, take,
}
use vulos_relay.Base.Dict.{get, insert}
use vulos_relay.Base.Result.{ok}
use vulos_relay.Reach.Registry.{RegistryState, register}
use vulos_relay.Reach.Wire.{read_exact}
use vulos_relay.Reach.Auth.{
  AuthAnnounce, AuthenticatedRegistration, NonceState, no_nonces, issue, consume, is_in, answered,
  signing_preimage, tunnel_auth_ds,
}
use vulos_relay.Reach.Auth.Nonces
use vulos_relay.Reach.Auth.Nonces.{issues, consumes, consume_once}
use vulos_relay.Reach.Auth.{read_announce}
use vulos_relay.Reach.Accept.{accept_box_connection, write_announce, authenticate_as_box}
use vulos_relay.Reach.Accept.Binding.{accept_binds_key, handshake_completes}
use vulos_relay.Reach.Auth.Handshake.{answered_sound}
use vulos_relay.Tests.Peeking.{box, zeros}
use vulos_relay.Tests.Registering.{
  registration, ik₁, ik₂, entry, start, guard, keys_differ, registration-IsAcceptable,
}

consume_once_example :
    (consume
      (Nonces.run (consume (issue no_nonces ik₁) ik₁).1 (issues ik₂ ∷ consumes ik₂ ∷ []))
      ik₁).0
    ≡ false
consume_once_example =
    consume_once (issue no_nonces ik₁) ik₁ (issues ik₂ ∷ consumes ik₂ ∷ []) (keys_differ, (tt, tt))

-- A signature is good when it begins with the key.
abbrev verify_domain : Bytes → Bytes → Bytes → Bytes → Bool
verify_domain key ds preimage signature = bytes_beq (take (length key) signature) key

abbrev announce : AuthAnnounce
announce = record { claimed_ik = ik₁; registration = registration }

abbrev authenticated : AuthenticatedRegistration
authenticated = record { registration = registration; authenticated_ik = ik₁ }

abbrev pending : NonceState
pending = record { pending = ik₂ ∷ []; order = ik₂ ∷ [] }

abbrev consumed : NonceState
consumed = record { pending = []; order = ik₂ ∷ [] }

good_answer :
    answered verify_domain pending announce ik₂ (1 ∷ zeros 63) ≡ (ok (authenticated, []), consumed)
unfolding answered consume read_exact signing_preimage bytes_beq
good_answer = refl

answered_sound_example :
    (sig : Bytes) × (read_exact 64 (1 ∷ zeros 63) ≡ ok (sig, []))
    × (verify_domain ik₁ tunnel_auth_ds (ik₂ ++ box) sig ≡ true)
    × (is_in ik₂ pending.pending ≡ true)
    × (registration ≡ registration)
    × (ik₁ ≡ ik₁)
    × (consumed ≡ (consume pending ik₂).1)
answered_sound_example =
    answered_sound verify_domain pending consumed announce ik₂ (1 ∷ zeros 63) [] authenticated
      good_answer

abbrev tunnel_entry : RegistryState ℕ
tunnel_entry = record { tunnels = (box, entry registration 7 0) ∷ []; next_generation = 1 }

accepted :
    accept_box_connection verify_domain pending start announce ik₂ (1 ∷ zeros 63) 7
    ≡ (ok (guard 0), consumed, tunnel_entry)
unfolding accept_box_connection answered consume read_exact signing_preimage bytes_beq register get
    insert
accepted = refl

accept_binds_key_example :
    ((sig : Bytes) × (rest : Bytes) × (sig ++ rest ≡ 1 ∷ zeros 63)
      × (length sig ≡ 64)
      × (verify_domain ik₁ tunnel_auth_ds (ik₂ ++ box) sig ≡ true))
    × (is_in ik₂ pending.pending ≡ true)
    × (consumed ≡ (consume pending ik₂).1)
    × (get tunnel_entry.tunnels box ≡ some (entry registration 7 0))
accept_binds_key_example =
    accept_binds_key verify_domain pending consumed start tunnel_entry announce ik₂ (1 ∷ zeros 63) 7
      (guard 0) accepted

-- A key of 32 bytes, which signs everything alike, and the check of its signatures.
abbrev long_announce : AuthAnnounce
long_announce = record { claimed_ik = zeros 32; registration = registration }

abbrev sign_domain : Bytes → Bytes → Bytes
sign_domain ds preimage = zeros 64

good_signature :
    verify_domain
      (zeros 32)
      tunnel_auth_ds
      (signing_preimage ik₂ box)
      (sign_domain tunnel_auth_ds (signing_preimage ik₂ box))
    ≡ true
unfolding bytes_beq
good_signature = refl

is_pending : is_in ik₂ pending.pending ≡ true
unfolding bytes_beq
is_pending = refl

handshake_completes_example :
    (read_announce (write_announce long_announce ++ []) ≡ ok (long_announce, []))
    × ((sig : Bytes) × (authenticate_as_box sign_domain registration ik₂ ≡ ok sig)
        × (answered verify_domain pending long_announce ik₂ (sig ++ (9 ∷ [])) ≡ (
          ok (record { registration = registration; authenticated_ik = zeros 32 }, 9 ∷ []),
          (consume pending ik₂).1,
        )))
handshake_completes_example =
    handshake_completes verify_domain sign_domain pending long_announce ik₂ [] (9 ∷ []) refl
      registration-IsAcceptable is_pending refl good_signature
