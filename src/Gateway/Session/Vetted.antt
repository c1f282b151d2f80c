-- ===== src/Gateway/Session/Vetted.antt =====
-- What every state of an inbound session of crates/gateway/src/inbound.rs satisfies.
use vulos_relay.Base.{ℕ, ◌≤◌, ◌≡◌, refl, ap, ◌⊎◌, Option, List, [], ◌∷◌, ◌++◌, Bytes, length}
use vulos_relay.Gateway.Smtp.{command, InboundGateway, MxSession, new}
use vulos_relay.Gateway.Session.{feed_line_bytes}
use vulos_relay.Gateway.Session.Steps.{
  HasSender, HasRecipient, IsVetted, feed_line_bytes-IsVetted, new-IsVetted,
}

module _ {W : Type 0} (gw : InboundGateway W) where
  -- The session and the outside after some lines.
  unfoldable pub feed : MxSession → List Bytes → W → MxSession × W
  unfolding feed_line_bytes
  feed s [] w = (s, w)
  feed s (line ∷ lines) w = let (answer, s₁, w₁) = feed_line_bytes gw s line w in feed s₁ lines w₁

  -- A HELO name and a state of the outside that the session had after some first part of the lines.
  abbrev pub Passed : MxSession → List Bytes → W → Option Bytes → W → Type 0
  Passed s lines w helo w₁ =
      (before : List Bytes) × (after : List Bytes) × (before ++ after ≡ lines)
      × ((feed s before w).0.helo ≡ helo)
      × ((feed s before w).1 ≡ w₁)

  feed-IsVetted :
      (peer : Bytes) (Asked : Option Bytes → W → Type 0) (s : MxSession) (lines : List Bytes)
      (w : W)
      → ((before after : List Bytes)
          → before ++ after ≡ lines
          → Asked (feed s before w).0.helo (feed s before w).1)
      → IsVetted gw peer Asked s
      → IsVetted gw peer Asked (feed s lines w).0
  unfolding feed
  feed-IsVetted peer Asked s [] w asks v = v
  feed-IsVetted peer Asked s (line ∷ lines) w asks v =
      let p = feed_line_bytes gw s line w in
      feed-IsVetted peer Asked p.1 lines p.2
        (λ before after e. asks (line ∷ before) after (ap (◌∷◌ line) e))
        (feed_line_bytes-IsVetted gw peer Asked s line w (asks [] (line ∷ lines) refl) v)

  -- Whatever lines a peer sends: while the session takes a message, it has a sender that the
  -- anti-abuse check accepted for this peer, and whose SPF outcome, of the evaluation for this peer
  -- and sender under the HELO name that the session then had, is at hand and passed the gate; both
  -- were asked after some first part of the lines. It has a recipient that the gateway accepts mail
  -- for; and the message so far is never longer than the limit.
  pub session_vetted :
      (peer_ip : Bytes) (now : ℕ) (lines : List Bytes) (w : W)
      → (((feed (new peer_ip now) lines w).0.phase ≡ command)
          ⊎ (HasSender gw peer_ip
                (Passed (new peer_ip now) lines w)
                (feed (new peer_ip now) lines w).0
              × HasRecipient gw (feed (new peer_ip now) lines w).0))
        × (length (feed (new peer_ip now) lines w).0.message ≤ gw.max_message_bytes)
  session_vetted peer_ip now lines w =
      let s = new peer_ip now in
      let Asked = Passed s lines w in
      let v =
        feed-IsVetted peer_ip Asked s lines w (λ before after e. (before, after, e, refl, refl))
          (new-IsVetted gw peer_ip Asked now) in
      (v.ready, v.bounded)
