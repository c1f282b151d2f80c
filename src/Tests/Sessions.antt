-- ===== src/Tests/Sessions.antt =====
-- The cold-sender gate and an inbound session on small inputs.
use vulos_relay.Base.{
  ◌%◌, ◌^◌, ◌<◌, ◌≤◌, ◌≡◌, ◌⊎◌, refl, true, false, none, List, [], ◌∷◌, ◌++◌, map, Bytes, bytes_eq,
  bytes_beq, pair_eq, codes, is_blank, from_utf8_lossy, ltb, if◌then◌else◌, length,
}
use vulos_relay.Base.Dict.{get, insert}
use vulos_relay.Base.Text
use vulos_relay.Gateway.Spf.Verdict.{unevaluated}
use vulos_relay.Gateway.Spf.Check
use vulos_relay.Gateway.Cold
use vulos_relay.Gateway.Cold.{
  accept, reject, ColdSenderGate, GateState, is_blocked, is_known, recent, check,
}
use vulos_relay.Gateway.Cold.Greylist.{GreylistOutcome, pruned, check_outcome}
use vulos_relay.Gateway.Smtp
use vulos_relay.Gateway.Session
use vulos_relay.Gateway.Smtp.{
  SmtpReply, reply, MxSession, InboundGateway, annotate, command, new, too_big,
}
use vulos_relay.Gateway.Session.{feed_line_bytes}
use vulos_relay.Gateway.Session.Steps.{HasSender, HasRecipient}
use vulos_relay.Gateway.Session.Vetted.{feed, Passed, session_vetted}
use vulos_relay.Gateway.Session.Body.{stuffed, join_lines, filled, ended, delivered, body_delivered}

abbrev ip : Bytes
ip = codes "203.0.113.9"

abbrev ann : Bytes
ann = codes "ann@x.org"

abbrev seen : GateState
seen = record { greylist = ((ip, ann), 1000) ∷ []; accepts = [] }

-- A first sighting is deferred, a retry after the delay is let in.
first_deferred :
    (check Cold.new (record { greylist = []; accepts = [] }) ip ann 1000).0
    ≡ reject 451 Cold.cold_reason
unfolding check Cold.new is_blocked is_known Cold.greylisted Text.to_ascii_lowercase Text.to_lower
    get insert bytes_beq
first_deferred = refl

retry_accepted : (check Cold.new seen ip ann 61_000).0 ≡ accept
unfolding check Cold.new is_blocked is_known Cold.greylisted Text.to_ascii_lowercase Text.to_lower
    get insert bytes_beq
retry_accepted = refl

check_outcome_example :
    ((is_blocked Cold.new ip ann ≡ true)
      × (check Cold.new seen ip ann 61_000
          ≡ (reject 554 (codes "5.7.1 sender blocked by policy"), seen)))
    ⊎ ((is_blocked Cold.new ip ann ≡ false)
        × (is_known Cold.new ip ann ≡ true)
        × (check Cold.new seen ip ann 61_000 ≡ (accept, seen)))
    ⊎ ((is_blocked Cold.new ip ann ≡ false)
        × (is_known Cold.new ip ann ≡ false)
        × (Cold.new.rate_limit ≤ length (recent Cold.new seen ip 61_000) % 2 ^ 32)
        × (check Cold.new seen ip ann 61_000
            ≡ (reject 451 Cold.rate_reason, pruned Cold.new seen ip 61_000)))
    ⊎ ((is_blocked Cold.new ip ann ≡ false)
        × (is_known Cold.new ip ann ≡ false)
        × (length (recent Cold.new seen ip 61_000) % 2 ^ 32 < Cold.new.rate_limit)
        × GreylistOutcome Cold.new seen ip ann 61_000 (check Cold.new seen ip ann 61_000))
check_outcome_example = check_outcome Cold.new seen ip ann 61_000

-- A gateway for x.org whose state is the list of messages that it accepted.
abbrev gw : InboundGateway (List Bytes)
gw = record {
  abuse_check = λ peer sender w. (accept, w);
  spf_resolver = none;
  spf_policy = annotate;
  resolves = λ rcpt. true;
  attest_domains = codes "x.org" ∷ [];
  max_message_bytes = 20;
  accept_message_with_spf = λ from to message now outcome w. (reply 250 [], message ∷ w);
}

abbrev opening : List Bytes
opening =
    codes "HELO y.org"
    ∷ codes "MAIL FROM:<bob@y.org>"
    ∷ codes "RCPT TO:<ann@x.org>"
    ∷ codes "DATA"
    ∷ codes "..hi"
    ∷ []

takes : (feed gw (new ip 7) opening []).0.message ≡ codes ".hi" ++ 13 ∷ 10 ∷ []
unfolding feed feed_line_bytes Session.feed_command Session.feed_data Session.take_line
    Session.verb_of Session.cmd_mail Session.mail_from_address Session.mail_accepted
    Session.evaluate_spf Smtp.spf_gate Session.cmd_rcpt Session.rcpt_to_address
    Session.rcpt_acceptable Session.cmd_data Smtp.argument new unevaluated Check.domain_of
    from_utf8_lossy Text.to_ascii_uppercase Text.to_ascii_lowercase Text.to_lower
    Text.eq_ignore_ascii_case Text.split_once Text.rsplit_once Text.break Text.trim Text.chars
    Text.concat Text.drop_while Text.reverse Text.is_empty Text.strip_prefix Text.trim_start_matches
    Text.trim_end_matches is_blank bytes_beq
takes = refl

session_vetted_example :
    (((feed gw (new ip 7) opening []).0.phase ≡ command)
      ⊎ (HasSender gw ip (Passed gw (new ip 7) opening []) (feed gw (new ip 7) opening []).0
          × HasRecipient gw (feed gw (new ip 7) opening []).0))
    × (length (feed gw (new ip 7) opening []).0.message ≤ gw.max_message_bytes)
session_vetted_example = session_vetted gw ip 7 opening []

abbrev lines : List Bytes
lines = codes "hi" ∷ codes ".dot" ∷ []

body_delivered_example :
    (let after = feed gw (filled gw (new ip 7) []) (map stuffed lines) [] in
      feed_line_bytes gw after.0 (codes ".") after.1)
    ≡ (if ltb gw.max_message_bytes (length (join_lines lines))
        then (too_big, ended gw (new ip 7), [])
        else delivered gw (new ip 7) (join_lines lines) [])
body_delivered_example = body_delivered gw (new ip 7) lines []

-- The session asks the gate about the sender as it is written, with its angle brackets: a sender
-- that the gate blocks by its address is let through.
abbrev blocking : ColdSenderGate
unfolding Cold.new Cold.allow_ip_prefix Cold.block_sender Text.to_ascii_lowercase Text.to_lower
blocking = Cold.block_sender (Cold.allow_ip_prefix Cold.new (codes "203.")) (codes "bob@y.org")

abbrev gated : InboundGateway GateState
gated = record {
  abuse_check = λ peer sender w. check blocking w peer sender 1000;
  spf_resolver = none;
  spf_policy = annotate;
  resolves = λ rcpt. true;
  attest_domains = codes "x.org" ∷ [];
  max_message_bytes = 20;
  accept_message_with_spf = λ from to message now outcome w. (reply 250 [], w);
}

blocked_address : is_blocked blocking ip (codes "bob@y.org") ≡ true
unfolding Cold.new Cold.allow_ip_prefix Cold.block_sender is_blocked Text.to_ascii_lowercase
    Text.to_lower Text.starts_with bytes_beq
blocked_address = refl

blocked_accepted :
    (feed_line_bytes gated (new ip 7) (codes "MAIL FROM:<bob@y.org>") seen).0 ≡ Smtp.sender_ok
unfolding feed_line_bytes Session.feed_command Session.verb_of Session.cmd_mail
    Session.mail_from_address Session.mail_accepted Session.evaluate_spf Smtp.spf_gate Smtp.argument
    new unevaluated from_utf8_lossy Cold.new Cold.allow_ip_prefix Cold.block_sender check is_blocked
    is_known Text.to_ascii_uppercase Text.to_ascii_lowercase Text.to_lower Text.split_once
    Text.break Text.trim Text.chars Text.concat Text.drop_while Text.reverse Text.is_empty
    Text.strip_prefix Text.starts_with is_blank bytes_beq
blocked_accepted = refl
