-- ===== src/Reach/Auth.antt =====
-- The key-authentication handshake of crates/reachability-adapter/src/auth.rs, the adapter's side.
-- The drawn nonce and the signature check (`verify_domain`) are parameters. The handshake is two
-- steps, before and after the box answers, since other connections use the nonces in between.
pub mod Nonces
pub mod Handshake
use vulos_relay.Base.{
  ℕ, Bool, true, false, not, Option, none, some, List, [], ◌∷◌, ◌++◌, Bytes, bytes_eq, codes, leb,
  ◌&&◌, if◌then◌else◌, length, any, keep,
}
use vulos_relay.Base.Result.{Result, ok, err}
use vulos_relay.Reach.Registry.{Registration}
use vulos_relay.Reach.Wire.{TunnelError, read_exact, read_registration}

pub data AuthError : Type 0 where
  io : AuthError
  malformed : Bytes → AuthError
  registration_error : TunnelError → AuthError
  nonce_replayed bad_signature : AuthError

abbrev pub max_pending_nonces : ℕ
max_pending_nonces = 10_000

pub record NonceState : Type 0 where
  pub pending : List Bytes
  pub order : List Bytes

unfoldable pub no_nonces : NonceState
no_nonces = record { pending = []; order = [] }

-- `HashSet::contains`, `insert` and `remove` of the pending nonces.
abbrev pub is_in : Bytes → List Bytes → Bool
is_in nonce = any (λ n. bytes_eq.beq n nonce)

abbrev pub without : Bytes → List Bytes → List Bytes
without nonce = keep (λ n. not (bytes_eq.beq n nonce))

-- At capacity the oldest entry goes.
unfoldable pub evict : NonceState → List Bytes → NonceState
evict st [] = st
evict st (oldest ∷ order) = record { pending = without oldest st.pending; order = order }

unfoldable pub issue : NonceState → Bytes → NonceState
unfolding evict
issue st drawn =
    let st₁ = if leb max_pending_nonces (length st.order) then evict st st.order else st in
    record {
      pending = if is_in drawn st₁.pending then st₁.pending else st₁.pending ++ (drawn ∷ []);
      order = st₁.order ++ (drawn ∷ []);
    }

unfoldable pub consume : NonceState → Bytes → Bool × NonceState
consume st nonce = (is_in nonce st.pending, record st { pending = without nonce st.pending })

pub record AuthAnnounce : Type 0 where
  pub claimed_ik : Bytes
  pub registration : Registration

pub record AuthenticatedRegistration : Type 0 where
  pub registration : Registration
  pub authenticated_ik : Bytes

unfoldable pub signing_preimage : Bytes → Bytes → Bytes
signing_preimage nonce name = nonce ++ name

-- The separator that the signature is made under: the text and a zero byte.
abbrev pub tunnel_auth_ds : Bytes
tunnel_auth_ds = codes "EPHOR-REACH-v0/tunnel-auth" ++ (0 ∷ [])

abbrev with_registration :
    Bytes → Result TunnelError (Registration × Bytes) → Result AuthError (AuthAnnounce × Bytes)
with_registration ik (ok (r, s)) = ok (record { claimed_ik = ik; registration = r }, s)
with_registration ik (err e) = err (registration_error e)

unfoldable pub read_announce : Bytes → Result AuthError (AuthAnnounce × Bytes)
read_announce s = elim (read_exact 32 s) [
  | err e ↦ err io
  | ok (ik, s') ↦ with_registration ik (read_registration s')
]

module _ (verify_domain : (key ds preimage signature : Bytes) → Bool) where
  -- After the challenge: the response is read, the nonce consumed, the signature checked.
  unfoldable pub answered :
      NonceState
      → AuthAnnounce
      → Bytes
      → Bytes
      → Result AuthError (AuthenticatedRegistration × Bytes) × NonceState
  unfolding consume
  answered st announce nonce s = elim (read_exact 64 s) [
    | err e ↦ (err io, st)
    | ok (sig, s') ↦
        let (live, st') = consume st nonce in
        (
          if not live
              then err nonce_replayed
              else if verify_domain announce.claimed_ik tunnel_auth_ds
                  (signing_preimage nonce announce.registration.name) sig
              then ok (
                record {
                  registration = announce.registration;
                  authenticated_ik = announce.claimed_ik;
                },
                s',
              )
              else err bad_signature,
          st',
        )
  ]
