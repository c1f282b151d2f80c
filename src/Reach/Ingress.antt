-- ===== src/Reach/Ingress.antt =====
-- `handle_ingress_connection` of crates/reachability-adapter/src/ingress.rs. What the tunnel does
-- when a stream is opened or written is a parameter; the calls on the sockets are a list of effects.
use vulos_relay.Base.{
  ◌≡◌, refl, Bool, true, false, Bool-cases, Option, none, some, Option-cases, ◌⊎◌, inl, inr, List,
  [], ◌∷◌, ◌++◌, Bytes, bytes_eq, any, if◌then◌else◌,
}
use vulos_relay.Base.Result.{Result, ok, err, Result-cases}
use vulos_relay.Reach.Registry.{RegistryState, TunnelLookup, lookup}
use vulos_relay.Reach.Wire.{TunnelError}
use vulos_relay.Reach.Sni.{
  SniError, SocketRead, ClientHelloPeek, peek_client_hello, try_parse, complete,
}
use vulos_relay.Reach.Sni.Peek.{bytes_of, peek_faithful}

pub data IngressError : Type 0 where
  sni : SniError → IngressError
  unregistered_name : Bytes → IngressError
  service_not_allowed : (name service : Bytes) → IngressError
  tunnel : TunnelError → IngressError

-- `reset` is `fail_closed`; `splice` is the bidirectional copy of what the client still sends.
pub data Effect (Handle : Type 0) : Type 0 where
  reset : Effect Handle
  open_stream : Handle → Effect Handle
  write_all : Bytes → Effect Handle
  splice : List SocketRead → Effect Handle

unfoldable pub service_allowed : List Bytes → Bytes → Bool
service_allowed allowed_services service_id = any (λ s. bytes_eq.beq s service_id) allowed_services

module _ {Handle : Type 0} (opening : Handle → Option TunnelError)
    (writing : Handle → Bytes → Option TunnelError) where
  -- A stream was opened: replay the ClientHello, then splice.
  unfoldable pub forward :
      Handle
      → ClientHelloPeek
      → List SocketRead
      → Result IngressError (Unit {0}) × List (Effect Handle)
  forward handle peek left = elim (writing handle peek.raw) [
    | some e ↦ (err (tunnel e), open_stream handle ∷ write_all peek.raw ∷ reset ∷ [])
    | none ↦ (ok tt, open_stream handle ∷ write_all peek.raw ∷ splice left ∷ [])
  ]

  -- The tunnel was found.
  unfoldable pub authorize :
      TunnelLookup Handle
      → Bytes
      → ClientHelloPeek
      → List SocketRead
      → Result IngressError (Unit {0}) × List (Effect Handle)
  unfolding forward
  authorize found service_id peek left =
      if service_allowed found.allowed_services service_id
      then (elim (opening found.handle) [
        | some e ↦ (err (tunnel e), reset ∷ [])
        | none ↦ forward found.handle peek left
      ])
      else (err (service_not_allowed peek.server_name service_id), reset ∷ [])

  unfoldable pub handle_ingress_connection :
      RegistryState Handle
      → List SocketRead
      → Bytes
      → Result IngressError (Unit {0}) × List (Effect Handle)
  unfolding authorize
  handle_ingress_connection registry reads service_id = elim (peek_client_hello reads) [
    | err e ↦ (err (sni e), reset ∷ [])
    | ok (peek, left) ↦ elim (lookup registry peek.server_name) [
      | none ↦ (err (unregistered_name peek.server_name), reset ∷ [])
      | some found ↦ authorize found service_id peek left
    ]
  ]

  -- The tunnel that the table holds for the server name of the ClientHello that the client sent, with
  -- the service on its allow-list; what was peeked is the first part of what the client sent.
  pub record IsAuthorized (registry : RegistryState Handle) (reads : List SocketRead)
      (service_id : Bytes) (peek : ClientHelloPeek) (left : List SocketRead)
      (found : TunnelLookup Handle) : Type 0 where
    pub named : try_parse peek.raw ≡ ok (complete peek.server_name)
    pub here : lookup registry peek.server_name ≡ some found
    pub allowed : service_allowed found.allowed_services service_id ≡ true
    pub verbatim : peek.raw ++ bytes_of left ≡ bytes_of reads

  -- Streams that are opened are opened on an authorized tunnel; `last` is what follows the replay.
  abbrev pub Forwards :
      RegistryState Handle
      → List SocketRead
      → Bytes
      → (List SocketRead → Effect Handle)
      → List (Effect Handle)
      → Type 0
  Forwards registry reads service_id last effects =
      (peek : ClientHelloPeek) × (left : List SocketRead) × (found : TunnelLookup Handle) × (effects
        ≡ open_stream found.handle ∷ write_all peek.raw ∷ last left ∷ [])
      × IsAuthorized registry reads service_id peek left found

  -- Why nothing was opened: no ClientHello was read, no tunnel has its server name, the service is
  -- not on the tunnel's allow-list, or the tunnel opens no stream.
  abbrev pub Refuses : RegistryState Handle → List SocketRead → Bytes → IngressError → Type 0
  Refuses registry reads service_id e =
      ((f : SniError) × (peek_client_hello reads ≡ err f) × (e ≡ sni f))
      ⊎ ((peek : ClientHelloPeek) × (left : List SocketRead) × (peek_client_hello reads
            ≡ ok (peek, left))
          × (((lookup registry peek.server_name ≡ none) × (e ≡ unregistered_name peek.server_name))
              ⊎ ((found : TunnelLookup Handle) × (lookup registry peek.server_name ≡ some found)
                  × (((service_allowed found.allowed_services service_id ≡ false)
                        × (e ≡ service_not_allowed peek.server_name service_id))
                      ⊎ ((f : TunnelError) × (opening found.handle ≡ some f) × (e ≡ tunnel f))))))

  -- What the effects of a connection are, by how it ended.
  abbrev pub Ends :
      RegistryState Handle
      → List SocketRead
      → Bytes
      → Result IngressError (Unit {0}) × List (Effect Handle)
      → Type 0
  Ends registry reads service_id (err e, effects) =
      ((effects ≡ reset ∷ []) × Refuses registry reads service_id e)
      ⊎ Forwards registry reads service_id (λ _. reset) effects
  Ends registry reads service_id (ok u, effects) = Forwards registry reads service_id splice effects

  forward-Ends :
      (registry : RegistryState Handle) (reads left : List SocketRead) (service_id : Bytes)
      (peek : ClientHelloPeek) (found : TunnelLookup Handle)
      → IsAuthorized registry reads service_id peek left found
      → Ends registry reads service_id (forward found.handle peek left)
  unfolding forward
  forward-Ends registry reads left service_id peek found a =
      elim (Option-cases (writing found.handle peek.raw)) [
        | inr (e, q) ↦ rw (q, forward) (inr (peek, left, found, refl, a))
        | inl q ↦ rw (q, forward) (peek, left, found, refl, a)
      ]

  authorize-Ends :
      (registry : RegistryState Handle) (reads left : List SocketRead) (service_id : Bytes)
      (peek : ClientHelloPeek) (found : TunnelLookup Handle)
      → lookup registry peek.server_name ≡ some found
      → peek_client_hello reads ≡ ok (peek, left)
      → Ends registry reads service_id (authorize found service_id peek left)
  unfolding authorize
  authorize-Ends registry reads left service_id peek found here same =
      elim (Bool-cases (service_allowed found.allowed_services service_id)) [
        | inr q ↦ rw q (inl (refl, inr (peek, left, same, inr (found, here, inl (q, refl)))))
        | inl allowed ↦ elim (Option-cases (opening found.handle)) [
          | inr (e, q) ↦
              rw (allowed, q)
                (inl (refl, inr (peek, left, same, inr (found, here, inr (e, q, refl)))))
          | inl q ↦
              rw (allowed, q)
                (forward-Ends registry reads left service_id peek found (record {
                  named = (peek_faithful reads left peek same).1;
                  here = here;
                  allowed = allowed;
                  verbatim = (peek_faithful reads left peek same).0;
                }))
        ]
      ]

  -- A connection that ends in an error ends in a reset and is never spliced. A tunnel gets bytes only
  -- if it is the one that the table holds for the server name that the parser finds in the peeked
  -- bytes, and its allow-list has the service: then it gets what the client sent from the first byte
  -- on, and after a replay that succeeds all that the client still sends. Where nothing is forwarded,
  -- the peek failed, or the name has no tunnel, or the service is not allowed, or the tunnel opens no
  -- stream, and the error says which.
  pub ingress_outcome :
      (registry : RegistryState Handle) (reads : List SocketRead) (service_id : Bytes)
      → Ends registry reads service_id (handle_ingress_connection registry reads service_id)
  unfolding handle_ingress_connection
  ingress_outcome registry reads service_id = elim (Result-cases (peek_client_hello reads)) [
    | inl (e, q) ↦ rw (q, handle_ingress_connection) (inl (refl, inl (e, q, refl)))
    | inr ((peek, left), q) ↦ elim (Option-cases (lookup registry peek.server_name)) [
      | inl missing ↦
          rw (q, handle_ingress_connection)
            (rw missing (inl (refl, inr (peek, left, q, inl (missing, refl)))))
      | inr (found, here) ↦
          rw (q, handle_ingress_connection)
            (rw here (authorize-Ends registry reads left service_id peek found here q))
    ]
  ]
