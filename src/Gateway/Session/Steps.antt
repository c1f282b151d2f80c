-- ===== src/Gateway/Session/Steps.antt =====
-- What each command and line of an inbound session of crates/gateway/src/inbound.rs keeps true.
use vulos_relay.Base.{
  ℕ, ◌+◌, ◌≤◌, ◌≡◌, ◌≢◌, refl, ap, sym, subst, ◌∙◌, ◌⊎◌, inl, inr, true, Bool-cases, Option, none,
  some, Option-cases, [], ◌∷◌, ◌++◌, Bytes, bytes_beq, codes, from_utf8_lossy, ltb, ◌||◌, length,
  length-append, arith,
}
use vulos_relay.Base.Text.{trim}
use vulos_relay.Gateway.Spf.Verdict.{SpfOutcome}
use vulos_relay.Gateway.Cold.{AbuseDecision, accept, reject}
use vulos_relay.Gateway.Smtp.{
  Phase, command, data_lines, InboundGateway, MxSession, new, reset_transaction, argument, spf_gate,
}
use vulos_relay.Gateway.Session.{
  evaluate_spf, rcpt_acceptable, mail_accepted, mail_from_address, cmd_mail, bare, rcpt_to_address,
  cmd_rcpt, both, cmd_data, end_data, unstuffed, take_line, feed_data, verb_of, feed_command,
  feed_line_bytes,
}

module _ {W : Type 0} (gw : InboundGateway W) where
  -- An accepted sender, of the peer `peer`: at a HELO name and a state of the outside that satisfy
  -- `Asked`, the anti-abuse check accepted it, and the SPF evaluation that followed gave the outcome
  -- at hand, which passes the gate.
  abbrev pub HasSender : Bytes → (Option Bytes → W → Type 0) → MxSession → Type 0
  HasSender peer Asked s =
      (a : Bytes) × (o : SpfOutcome) × (helo : Option Bytes) × (w : W) × (s.mail_from ≡ some a)
      × (s.spf_outcome ≡ some o)
      × Asked helo w
      × ((gw.abuse_check peer a w).0 ≡ accept)
      × ((evaluate_spf gw peer a helo (gw.abuse_check peer a w).1).0 ≡ o)
      × (spf_gate gw.spf_policy o ≡ none)

  -- A recipient that the gateway accepts mail for.
  abbrev pub HasRecipient : MxSession → Type 0
  HasRecipient s = (r : Bytes) × (s.rcpt_to ≡ some r) × (rcpt_acceptable gw r ≡ none)

  module _ (peer : Bytes) (Asked : Option Bytes → W → Type 0) where
    pub record IsVetted (s : MxSession) : Type 0 where
      pub peer_ip : s.peer_ip ≡ peer
      pub sender : (s.mail_from ≡ none) ⊎ HasSender peer Asked s
      pub recipient : (s.rcpt_to ≡ none) ⊎ HasRecipient s
      pub ready : (s.phase ≡ command) ⊎ (HasSender peer Asked s × HasRecipient s)
      pub bounded : length s.message ≤ gw.max_message_bytes

    -- A state that differs only where nothing is said.
    same :
        (s t : MxSession)
        → IsVetted s
        → t.peer_ip ≡ s.peer_ip
        → t.mail_from ≡ s.mail_from
        → t.spf_outcome ≡ s.spf_outcome
        → t.rcpt_to ≡ s.rcpt_to
        → t.phase ≡ s.phase
        → t.message ≡ s.message
        → IsVetted t
    same s t v e e₀ e₁ e₂ e₃ e₄ = record {
      peer_ip = e ∙ v.peer_ip;
      sender = elim v.sender [ inl q ↦ inl (e₀ ∙ q) | inr h ↦ inr (sends h) ];
      recipient = elim v.recipient [ inl q ↦ inl (e₂ ∙ q) | inr h ↦ inr (receives h) ];
      ready = elim v.ready [ inl q ↦ inl (e₃ ∙ q) | inr h ↦ inr (sends h.0, receives h.1) ];
      bounded = subst (λ m. length m ≤ gw.max_message_bytes) (sym e₄) v.bounded;
    }
      where
        sends : HasSender peer Asked s → HasSender peer Asked t
        sends (a, o, helo, w, q, r, asked, accepts, answer, g) =
            (a, o, helo, w, e₀ ∙ q, e₁ ∙ r, asked, accepts, answer, g)

        receives : HasRecipient s → HasRecipient t
        receives (r, q, g) = (r, e₂ ∙ q, g)

    mail_accepted-IsVetted :
        (s : MxSession) (addr : Bytes) (w : W)
        → Asked s.helo w
        → (gw.abuse_check s.peer_ip addr w).0 ≡ accept
        → IsVetted s
        → IsVetted (mail_accepted gw s addr (gw.abuse_check s.peer_ip addr w).1).1
    unfolding mail_accepted
    mail_accepted-IsVetted s addr w asks accepts v =
        let answers : Bytes → SpfOutcome =
          λ p. (evaluate_spf gw p addr s.helo (gw.abuse_check p addr w).1).0 in
        let outcome = answers s.peer_ip in
        elim (Option-cases (spf_gate gw.spf_policy outcome)) [
          | inr (refusal, q) ↦ rw (mail_accepted, q) v
          | inl q ↦
              let vetted : HasSender peer Asked
                  (record s { mail_from = some addr; spf_outcome = some outcome }) =
                (
                  addr,
                  outcome,
                  s.helo,
                  w,
                  refl,
                  refl,
                  asks,
                  subst (λ p. (gw.abuse_check p addr w).0 ≡ accept) v.peer_ip accepts,
                  ap answers (sym v.peer_ip),
                  q,
                ) in
              rw (mail_accepted, q)
                (record {
                  peer_ip = v.peer_ip;
                  sender = inr vetted;
                  recipient = v.recipient;
                  ready = elim v.ready [ inl p ↦ inl p | inr (a, r) ↦ inr (vetted, r) ];
                  bounded = v.bounded;
                })
        ]

    AbuseDecision-cases :
        (d : AbuseDecision)
        → (d ≡ accept) ⊎ ((code : ℕ) × (reason : Bytes) × (d ≡ reject code reason))
    AbuseDecision-cases accept = inl refl
    AbuseDecision-cases (reject code reason) = inr (code, reason, refl)

    cmd_mail-IsVetted :
        (s : MxSession) (rest : Bytes) (w : W)
        → Asked s.helo w
        → IsVetted s
        → IsVetted (cmd_mail gw s rest w).1
    unfolding cmd_mail mail_from_address
    cmd_mail-IsVetted s rest w asks v =
        elim (Option-cases (argument (codes "FROM:") (codes "from:") rest)) [
          | inl q ↦ rw (cmd_mail, q) v
          | inr (x, q) ↦
              let p = gw.abuse_check s.peer_ip (trim x) w in
              elim (AbuseDecision-cases p.0) [
                | inl d ↦
                    rw (cmd_mail, q, mail_from_address, d)
                      (mail_accepted-IsVetted s (trim x) w asks d v)
                | inr (code, reason, d) ↦ rw (cmd_mail, q, mail_from_address, d) v
              ]
        ]

    cmd_rcpt-IsVetted :
        (s : MxSession) (rest : Bytes) (w : W) → IsVetted s → IsVetted (cmd_rcpt gw s rest w).1
    unfolding cmd_rcpt rcpt_to_address
    cmd_rcpt-IsVetted s rest w v = elim (Option-cases s.mail_from) [
      | inl m ↦ rw (cmd_rcpt, m) v
      | inr (a, m) ↦ elim (Option-cases (argument (codes "TO:") (codes "to:") rest)) [
        | inl q ↦ rw (cmd_rcpt, m, q) v
        | inr (x, q) ↦ elim (Option-cases (rcpt_acceptable gw (bare gw x))) [
          | inr (refusal, r) ↦ rw (cmd_rcpt, m, q, rcpt_to_address, r) v
          | inl r ↦
              rw (cmd_rcpt, m, q, rcpt_to_address, r)
                (record {
                  peer_ip = v.peer_ip;
                  sender = v.sender;
                  recipient = inr (bare gw x, refl, r);
                  ready = elim v.ready [
                    | inl p ↦ inl p
                    | inr (h, k) ↦ inr (h, (bare gw x, refl, r))
                  ];
                  bounded = v.bounded;
                })
        ]
      ]
    ]

    both-some :
        (m r : Option Bytes)
        → both gw m r ≡ true
        → ((a : Bytes) × (m ≡ some a)) × ((b : Bytes) × (r ≡ some b))
    both-some (some a) (some b) h = ((a, refl), (b, refl))
    both-some (some a) none h = cc h
    both-some none r h = cc h

    present : (A : Type 0) (m : Option Bytes) (a : Bytes) → m ≡ some a → (m ≡ none) ⊎ A → A
    present A m a e (inl q) = elim (impossible (sym e ∙ q)) [ ]
      where
        impossible : some a ≢ none
        impossible x = cc x
    present A m a e (inr h) = h

    cmd_data-IsVetted : (s : MxSession) (w : W) → IsVetted s → IsVetted (cmd_data gw s w).1
    unfolding cmd_data
    cmd_data-IsVetted s w v = elim (Bool-cases (both gw s.mail_from s.rcpt_to)) [
      | inr q ↦ rw (cmd_data, q) v
      | inl q ↦
          let (a, b) = both-some s.mail_from s.rcpt_to q in
          rw (cmd_data, q)
            (record {
              peer_ip = v.peer_ip;
              sender = v.sender;
              recipient = v.recipient;
              ready = inr (
                present (HasSender peer Asked s) s.mail_from a.0 a.1 v.sender,
                present (HasRecipient s) s.rcpt_to b.0 b.1 v.recipient,
              );
              bounded = v.bounded;
            })
    ]

    -- A session with no transaction, in the command phase.
    ended-IsVetted :
        (s : MxSession)
        → s.peer_ip ≡ peer
        → IsVetted (record (reset_transaction s) { phase = command })
    ended-IsVetted s h = record {
      peer_ip = h;
      sender = inl refl;
      recipient = inl refl;
      ready = inl refl;
      bounded = omega arith;
    }

    end_data-IsVetted : (s : MxSession) (w : W) → s.peer_ip ≡ peer → IsVetted (end_data gw s w).1
    unfolding end_data
    end_data-IsVetted s w h = elim (Bool-cases s.size_exceeded) [
      | inl q ↦ rw (end_data, q) (ended-IsVetted s h)
      | inr q ↦ rw (end_data, q) (ended-IsVetted s h)
    ]

    take_line-IsVetted :
        (s : MxSession) (line : Bytes) → IsVetted s → IsVetted (take_line gw s line)
    unfolding take_line
    take_line-IsVetted s line v = elim (Bool-cases s.size_exceeded) [
      | inl q ↦ rw (take_line, q) (same s _ v refl refl refl refl refl refl)
      | inr q ↦ elim (Bool-cases (ltb gw.max_message_bytes (length s.message + length line + 2))) [
        | inl b ↦
            rw (take_line, q, b)
              (record {
                peer_ip = v.peer_ip;
                sender = v.sender;
                recipient = v.recipient;
                ready = v.ready;
                bounded = omega arith;
              })
        | inr b ↦
            rw (take_line, q, b)
              (record {
                peer_ip = v.peer_ip;
                sender = v.sender;
                recipient = v.recipient;
                ready = v.ready;
                bounded = ground (
                  arith,
                  b,
                  length-append (s.message ++ line) (13 ∷ 10 ∷ []),
                  length-append s.message line,
                );
              })
      ]
    ]

    feed_data-IsVetted :
        (s : MxSession) (line : Bytes) (w : W) → IsVetted s → IsVetted (feed_data gw s line w).1
    unfolding feed_data
    feed_data-IsVetted s line w v = elim (Bool-cases (bytes_beq line (codes "."))) [
      | inl q ↦ rw (feed_data, q) (end_data-IsVetted s w v.peer_ip)
      | inr q ↦ rw (feed_data, q) (take_line-IsVetted s (unstuffed gw line) v)
    ]

    reset-IsVetted :
        (s : MxSession) → s.peer_ip ≡ peer → s.phase ≡ command → IsVetted (reset_transaction s)
    reset-IsVetted s e h = record {
      peer_ip = e;
      sender = inl refl;
      recipient = inl refl;
      ready = inl h;
      bounded = omega arith;
    }

    feed_command-IsVetted :
        (s : MxSession) (verb rest : Bytes) (w : W)
        → Asked s.helo w
        → s.phase ≡ command
        → IsVetted s
        → IsVetted (feed_command gw s verb rest w).1
    unfolding feed_command
    feed_command-IsVetted s verb rest w asks h v =
        elim (Bool-cases (bytes_beq verb (codes "HELO") || bytes_beq verb (codes "EHLO"))) [
          | inl q0 ↦ rw (feed_command, q0) (same s _ v refl refl refl refl refl refl)
          | inr q0 ↦ elim (Bool-cases (bytes_beq verb (codes "MAIL"))) [
            | inl q1 ↦ rw (feed_command, q0, q1) (cmd_mail-IsVetted s rest w asks v)
            | inr q1 ↦ elim (Bool-cases (bytes_beq verb (codes "RCPT"))) [
              | inl q2 ↦ rw (feed_command, q0, q1, q2) (cmd_rcpt-IsVetted s rest w v)
              | inr q2 ↦ elim (Bool-cases (bytes_beq verb (codes "DATA"))) [
                | inl q3 ↦ rw (feed_command, q0, q1, q2, q3) (cmd_data-IsVetted s w v)
                | inr q3 ↦ elim (Bool-cases (bytes_beq verb (codes "RSET"))) [
                  | inl q4 ↦ rw (feed_command, q0, q1, q2, q3, q4) (reset-IsVetted s v.peer_ip h)
                  | inr q4 ↦ elim (Bool-cases (bytes_beq verb (codes "NOOP"))) [
                    | inl q5 ↦ rw (feed_command, q0, q1, q2, q3, q4, q5) v
                    | inr q5 ↦ elim (Bool-cases (bytes_beq verb (codes "QUIT"))) [
                      | inl q6 ↦ rw (feed_command, q0, q1, q2, q3, q4, q5, q6) v
                      | inr q6 ↦ rw (feed_command, q0, q1, q2, q3, q4, q5, q6) v
                    ]
                  ]
                ]
              ]
            ]
          ]
        ]

    Phase-cases : (p : Phase) → (p ≡ command) ⊎ (p ≡ data_lines)
    Phase-cases command = inl refl
    Phase-cases data_lines = inr refl

    pub feed_line_bytes-IsVetted :
        (s : MxSession) (line : Bytes) (w : W)
        → Asked s.helo w
        → IsVetted s
        → IsVetted (feed_line_bytes gw s line w).1
    unfolding feed_line_bytes
    feed_line_bytes-IsVetted s line w asks v = elim (Phase-cases s.phase) [
      | inl q ↦
          rw (feed_line_bytes, q)
            (feed_command-IsVetted s (verb_of gw (from_utf8_lossy line)).0
              (verb_of gw (from_utf8_lossy line)).1 w asks q v)
      | inr q ↦ rw (feed_line_bytes, q) (feed_data-IsVetted s line w v)
    ]

    pub new-IsVetted : (now : ℕ) → IsVetted (new peer now)
    unfolding new
    new-IsVetted now = record {
      peer_ip = refl;
      sender = inl refl;
      recipient = inl refl;
      ready = inl refl;
      bounded = omega arith;
    }
