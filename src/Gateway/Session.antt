-- ===== src/Gateway/Session.antt =====
-- The inbound SMTP session of crates/gateway/src/inbound.rs: `MxSession`, and the parts of
-- `InboundGateway` that it calls before the message is accepted. What the message's acceptance does
-- (`accept_message_with_spf`: DKIM, DMARC, sealing and delivery), the anti-abuse seam and the
-- directory are parameters, over a state `W` of all that is outside the session.
pub mod Steps
pub mod Vetted
pub mod Body
use vulos_relay.Base.{
  ℕ, ◌+◌, Bool, true, false, not, Option, none, some, List, [], ◌∷◌, ◌++◌, Bytes, bytes_beq, codes,
  from_utf8_lossy, ltb, ◌==◌, ◌||◌, if◌then◌else◌, length, any,
}
use vulos_relay.Base.Text.{
  eq_ignore_ascii_case, to_ascii_uppercase, is_empty, trim, trim_start_matches, trim_end_matches,
  split_once, strip_prefix,
}
use vulos_relay.Gateway.Spf.Address.{IpAddr, v4, v6, read_ipv4_addr, parse_ipv6}
use vulos_relay.Gateway.Spf.Verdict
use vulos_relay.Gateway.Spf.Verdict.{SpfResult, SpfOutcome, unevaluated, temp_error}
use vulos_relay.Gateway.Spf.Evaluator.{SpfResolver, or_current}
use vulos_relay.Gateway.Spf.Check.{evaluate, domain_of}
use vulos_relay.Gateway.Cold.{AbuseDecision, accept, reject}
use vulos_relay.Gateway.Smtp.{
  SmtpReply, reply, SpfPolicy, annotate, enforce, Phase, command, data_lines, InboundGateway,
  MxSession, new, greeting, reset_transaction, parse_ip, argument, spf_gate, sender_ok,
  recipient_ok, start_input, too_big, no_reply, or_empty,
}

module _ {W : Type 0} (gw : InboundGateway W) where
  unfoldable pub evaluate_spf : Bytes → Bytes → Option Bytes → W → SpfOutcome × W
  unfolding trim parse_ip evaluate unevaluated
  evaluate_spf peer_ip mail_from helo w = elim gw.spf_resolver [
    | none ↦ (unevaluated, w)
    | some resolver ↦ elim (parse_ip (trim peer_ip)) [
      | none ↦ (unevaluated, w)
      | some ip ↦ evaluate resolver ip mail_from helo w
    ]
  ]

  -- A refusal, or none.
  unfoldable pub rcpt_acceptable : Bytes → Option SmtpReply
  unfolding domain_of eq_ignore_ascii_case
  rcpt_acceptable rcpt = elim (domain_of rcpt) [
    | none ↦ some (reply 501 (codes "5.1.3 bad recipient address"))
    | some domain ↦
        if not (gw.resolves rcpt)
        then some (reply 550 (codes "5.1.1 no such user here"))
        else if any (λ d. eq_ignore_ascii_case d domain) gw.attest_domains
        then none
        else some (reply 451 (codes "4.3.5 gateway not configured for this domain"))
  ]

  abbrev pub Next : Type 0
  Next = SmtpReply × MxSession × W

  -- A sender that the gate let through.
  unfoldable pub mail_accepted : MxSession → Bytes → W → Next
  unfolding evaluate_spf spf_gate
  mail_accepted s addr w =
      let (outcome, w₁) = evaluate_spf s.peer_ip addr s.helo w in
      elim (spf_gate gw.spf_policy outcome) [
        | some refusal ↦ (refusal, s, w₁)
        | none ↦ (sender_ok, record s { mail_from = some addr; spf_outcome = some outcome }, w₁)
      ]

  unfoldable pub mail_from_address : MxSession → Bytes → W → Next
  unfolding mail_accepted
  mail_from_address s addr w =
      let (decision, w₁) = gw.abuse_check s.peer_ip addr w in
      elim decision [
        | reject code reason ↦ (reply code reason, s, w₁)
        | accept ↦ mail_accepted s addr w₁
      ]

  unfoldable pub cmd_mail : MxSession → Bytes → W → Next
  unfolding argument mail_from_address trim
  cmd_mail s rest w = elim (argument (codes "FROM:") (codes "from:") rest) [
    | none ↦ (reply 501 (codes "5.5.4 syntax: MAIL FROM:<address>"), s, w)
    | some x ↦ mail_from_address s (trim x) w
  ]

  abbrev pub bare : Bytes → Bytes
  bare x = trim_end_matches 62 (trim_start_matches 60 (trim x))

  unfoldable pub rcpt_to_address : MxSession → Bytes → W → Next
  unfolding rcpt_acceptable
  rcpt_to_address s addr w = elim (rcpt_acceptable addr) [
    | some refusal ↦ (refusal, s, w)
    | none ↦ (recipient_ok, record s { rcpt_to = some addr }, w)
  ]

  unfoldable pub cmd_rcpt : MxSession → Bytes → W → Next
  unfolding argument rcpt_to_address trim trim_start_matches trim_end_matches
  cmd_rcpt s rest w = elim s.mail_from [
    | none ↦ (reply 503 (codes "5.5.1 need MAIL before RCPT"), s, w)
    | some sender ↦ elim (argument (codes "TO:") (codes "to:") rest) [
      | none ↦ (reply 501 (codes "5.5.4 syntax: RCPT TO:<address>"), s, w)
      | some x ↦ rcpt_to_address s (bare x) w
    ]
  ]

  abbrev pub both : Option Bytes → Option Bytes → Bool
  both (some x) (some y) = true
  both (some x) none = false
  both none y = false

  unfoldable pub cmd_data : MxSession → W → Next
  cmd_data s w =
      if both s.mail_from s.rcpt_to
      then (start_input, record s { phase = data_lines }, w)
      else (reply 503 (codes "5.5.1 need MAIL and RCPT before DATA"), s, w)

  -- The lone `.` that ends the data.
  unfoldable pub end_data : MxSession → W → Next
  end_data s w =
      let next = record (reset_transaction s) { phase = command } in
      if s.size_exceeded
      then (too_big, next, w)
      else (let (answer, w₁) =
            gw.accept_message_with_spf (or_empty s.mail_from) (or_empty s.rcpt_to) s.message s.now
              s.spf_outcome w in
          (answer, next, w₁))

  abbrev pub unstuffed : Bytes → Bytes
  unstuffed [] = []
  unstuffed (c ∷ line) = if c == 46 then line else c ∷ line

  unfoldable pub take_line : MxSession → Bytes → MxSession
  take_line s line =
      if s.size_exceeded
      then s
      else if ltb gw.max_message_bytes (length s.message + length line + 2)
      then record s { size_exceeded = true; message = [] }
      else record s { message = s.message ++ line ++ 13 ∷ 10 ∷ [] }

  unfoldable pub feed_data : MxSession → Bytes → W → Next
  unfolding end_data take_line
  feed_data s line w =
      if bytes_beq line (codes ".")
      then end_data s w
      else (no_reply, take_line s (unstuffed line), w)

  -- The verb in upper case, and the argument.
  unfoldable pub verb_of : Bytes → Bytes × Bytes
  unfolding split_once to_ascii_uppercase trim
  verb_of line = elim (split_once 32 line) [
    | some (v, r) ↦ (to_ascii_uppercase v, trim r)
    | none ↦ (to_ascii_uppercase (trim line), [])
  ]

  abbrev pub helo_of : Bytes → Option Bytes
  helo_of arg = if is_empty arg then none else some arg

  unfoldable pub feed_command : MxSession → Bytes → Bytes → W → Next
  unfolding cmd_mail cmd_rcpt cmd_data trim is_empty
  feed_command s verb rest w =
      if bytes_beq verb (codes "HELO") || bytes_beq verb (codes "EHLO")
      then (
        reply 250 (codes "envoir-gateway at your service"),
        record s { helo = helo_of (trim rest) },
        w,
      )
      else if bytes_beq verb (codes "MAIL")
      then cmd_mail s rest w
      else if bytes_beq verb (codes "RCPT")
      then cmd_rcpt s rest w
      else if bytes_beq verb (codes "DATA")
      then cmd_data s w
      else if bytes_beq verb (codes "RSET")
      then (reply 250 (codes "2.0.0 flushed"), reset_transaction s, w)
      else if bytes_beq verb (codes "NOOP")
      then (reply 250 (codes "2.0.0 ok"), s, w)
      else if bytes_beq verb (codes "QUIT")
      then (reply 221 (codes "2.0.0 bye"), s, w)
      else (reply 502 (codes "5.5.1 command not implemented"), s, w)

  unfoldable pub feed_line_bytes : MxSession → Bytes → W → Next
  unfolding from_utf8_lossy verb_of feed_command feed_data
  feed_line_bytes s line w = elim s.phase [
    | data_lines ↦ feed_data s line w
    | command ↦ let (verb, rest) = verb_of (from_utf8_lossy line) in feed_command s verb rest w
  ]
