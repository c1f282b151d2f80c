-- ===== src/Gateway/Smtp.antt =====
-- The state, the replies and the SPF policy of the inbound SMTP session of
-- crates/gateway/src/inbound.rs.
use vulos_relay.Base.{ℕ, Bool, false, Option, none, some, List, [], ◌∷◌, Bytes, codes}
use vulos_relay.Base.Text.{strip_prefix}
use vulos_relay.Gateway.Spf.Address.{IpAddr, v4, v6, read_ipv4_addr, parse_ipv6}
use vulos_relay.Gateway.Spf.Verdict
use vulos_relay.Gateway.Spf.Verdict.{SpfResult, SpfOutcome, unevaluated, temp_error}
use vulos_relay.Gateway.Spf.Evaluator.{SpfResolver}
use vulos_relay.Gateway.Cold.{AbuseDecision}

pub record SmtpReply : Type 0 where
  pub code : ℕ
  pub text : Bytes

abbrev pub reply : ℕ → Bytes → SmtpReply
reply c t = record { code = c; text = t }

pub data SpfPolicy : Type 0 where
  annotate enforce : SpfPolicy

pub data Phase : Type 0 where
  command data_lines : Phase

-- What the session uses of the gateway.
pub record InboundGateway (W : Type 0) : Type 0 where
  pub abuse_check : (peer_ip mail_from : Bytes) → W → AbuseDecision × W
  pub spf_resolver : Option (SpfResolver W)
  pub spf_policy : SpfPolicy
  pub resolves : Bytes → Bool
  pub attest_domains : List Bytes
  pub max_message_bytes : ℕ
  pub accept_message_with_spf :
      (mail_from rcpt_to message : Bytes) (now : ℕ) → Option SpfOutcome → W → SmtpReply × W

pub record MxSession : Type 0 where
  pub peer_ip : Bytes
  pub now : ℕ
  pub phase : Phase
  pub helo : Option Bytes
  pub mail_from : Option Bytes
  pub rcpt_to : Option Bytes
  pub message : Bytes
  pub size_exceeded : Bool
  pub spf_outcome : Option SpfOutcome

unfoldable pub new : Bytes → ℕ → MxSession
new peer_ip now = record {
  peer_ip = peer_ip;
  now = now;
  phase = command;
  helo = none;
  mail_from = none;
  rcpt_to = none;
  message = [];
  size_exceeded = false;
  spf_outcome = none;
}

unfoldable pub greeting : SmtpReply
greeting = reply 220 (codes "envoir-gateway DMTAP MX ready")

abbrev pub reset_transaction : MxSession → MxSession
reset_transaction s = record s {
  mail_from = none;
  rcpt_to = none;
  message = [];
  size_exceeded = false;
  spf_outcome = none;
}

-- `IpAddr::from_str`
abbrev parsed_ip : Option (ℕ × Bytes) → Option ℕ → Option IpAddr
parsed_ip (some (n, [])) six = some (v4 n)
parsed_ip (some (n, c ∷ s)) six = none
parsed_ip none none = none
parsed_ip none (some n) = some (v6 n)

unfoldable pub parse_ip : Bytes → Option IpAddr
unfolding read_ipv4_addr parse_ipv6
parse_ip s = parsed_ip (read_ipv4_addr s) (parse_ipv6 s)

-- The two prefixes that a command's argument may have.
unfoldable pub argument : Bytes → Bytes → Bytes → Option Bytes
unfolding strip_prefix
argument upper lower rest = elim (strip_prefix upper rest) [
  | some x ↦ some x
  | none ↦ strip_prefix lower rest
]

-- `SpfResult::Fail` and `TempError` refuse where the policy enforces.
unfoldable pub spf_gate : SpfPolicy → SpfOutcome → Option SmtpReply
spf_gate annotate outcome = none
spf_gate enforce outcome = elim outcome.result [
  | Verdict.fail ↦ some (
      reply 550 (codes "5.7.23 SPF hard fail (RFC 7208): sender IP not authorized for this domain"))
  | Verdict.temp_error ↦
      some
        (reply 451 (codes "4.4.3 SPF temporary DNS error evaluating sender policy, please retry"))
  | _ ↦ none
]

abbrev pub sender_ok : SmtpReply
sender_ok = reply 250 (codes "2.1.0 sender ok")

abbrev pub recipient_ok : SmtpReply
recipient_ok = reply 250 (codes "2.1.5 recipient ok")

abbrev pub start_input : SmtpReply
start_input = reply 354 (codes "start mail input; end with <CRLF>.<CRLF>")

abbrev pub too_big : SmtpReply
too_big = reply 552 (codes "5.3.4 message size exceeds fixed maximum message size")

abbrev pub no_reply : SmtpReply
no_reply = reply 0 []

abbrev pub or_empty : Option Bytes → Bytes
or_empty none = []
or_empty (some s) = s
