-- ===== src/Gateway/Cold.antt =====
-- The cold-sender gate of crates/gateway/src/inbound.rs: `ColdSenderGate`. The clock's reading is an
-- argument, in milliseconds as a `u64`; a check holds the lock for its whole run.
pub mod Greylist
use vulos_relay.Base.{
  ℕ, ◌-◌, ◌%◌, ◌^◌, Bool, true, false, Option, none, some, List, [], ◌∷◌, ◌++◌, Bytes, bytes_eq,
  bytes_beq, pair_eq, codes, ltb, leb, if◌then◌else◌, length, keep, any,
}
use vulos_relay.Base.Dict.{Dict, get, insert}
use vulos_relay.Base.Text.{to_ascii_lowercase, starts_with}

pub data AbuseDecision : Type 0 where
  accept : AbuseDecision
  reject : (code : ℕ) (reason : Bytes) → AbuseDecision

pub record GateState : Type 0 where
  pub greylist : Dict (Bytes × Bytes) ℕ
  pub accepts : Dict Bytes (List ℕ)

pub record ColdSenderGate : Type 0 where
  pub known_ip_prefixes : List Bytes
  pub known_senders : List Bytes
  pub blocked_ip_prefixes : List Bytes
  pub blocked_senders : List Bytes
  pub greylist_min_retry_ms : ℕ
  pub greylist_ttl_ms : ℕ
  pub rate_limit : ℕ
  pub rate_window_ms : ℕ

unfoldable pub new : ColdSenderGate
new = record {
  known_ip_prefixes = [];
  known_senders = [];
  blocked_ip_prefixes = [];
  blocked_senders = [];
  greylist_min_retry_ms = 60_000;
  greylist_ttl_ms = 43_200_000;
  rate_limit = 60;
  rate_window_ms = 60_000;
}

unfoldable pub allow_ip_prefix : ColdSenderGate → Bytes → ColdSenderGate
allow_ip_prefix gate prefix = record gate {
  known_ip_prefixes = gate.known_ip_prefixes ++ prefix ∷ [];
}

unfoldable pub allow_sender : ColdSenderGate → Bytes → ColdSenderGate
unfolding to_ascii_lowercase
allow_sender gate addr = record gate {
  known_senders = gate.known_senders ++ to_ascii_lowercase addr ∷ [];
}

unfoldable pub block_ip_prefix : ColdSenderGate → Bytes → ColdSenderGate
block_ip_prefix gate prefix = record gate {
  blocked_ip_prefixes = gate.blocked_ip_prefixes ++ prefix ∷ [];
}

unfoldable pub block_sender : ColdSenderGate → Bytes → ColdSenderGate
unfolding to_ascii_lowercase
block_sender gate addr = record gate {
  blocked_senders = gate.blocked_senders ++ to_ascii_lowercase addr ∷ [];
}

unfoldable pub with_greylist : ColdSenderGate → ℕ → ℕ → ColdSenderGate
with_greylist gate min_retry_ms ttl_ms = record gate {
  greylist_min_retry_ms = min_retry_ms;
  greylist_ttl_ms = ttl_ms;
}

unfoldable pub with_rate_limit : ColdSenderGate → ℕ → ℕ → ColdSenderGate
with_rate_limit gate limit window_ms = record gate {
  rate_limit = limit;
  rate_window_ms = window_ms;
}

abbrev listed : List Bytes → List Bytes → Bytes → Bytes → Bool
listed prefixes senders peer_ip sender =
    if any (λ p. starts_with p peer_ip) prefixes
    then true
    else any (λ s. bytes_beq s sender) senders

unfoldable pub is_known : ColdSenderGate → Bytes → Bytes → Bool
unfolding to_ascii_lowercase starts_with
is_known gate peer_ip sender =
    listed gate.known_ip_prefixes gate.known_senders peer_ip (to_ascii_lowercase sender)

unfoldable pub is_blocked : ColdSenderGate → Bytes → Bytes → Bool
unfolding to_ascii_lowercase starts_with
is_blocked gate peer_ip sender =
    listed gate.blocked_ip_prefixes gate.blocked_senders peer_ip (to_ascii_lowercase sender)

abbrev pub or_none : Option (List ℕ) → List ℕ
or_none none = []
or_none (some hits) = hits

-- The accepted times of an IP that are in the window.
abbrev pub recent : ColdSenderGate → GateState → Bytes → ℕ → List ℕ
recent gate st peer_ip now =
    keep (λ t. leb (now - gate.rate_window_ms) t) (or_none (get st.accepts peer_ip))

-- What step 4 makes of the first sighting.
pub data Sighting : Type 0 where
  cold early waited : Sighting

abbrev pub sighted : ColdSenderGate → Option ℕ → ℕ → Sighting
sighted gate none now = cold
sighted gate (some ts) now =
    if ltb gate.greylist_ttl_ms (now - ts)
    then cold
    else if ltb (now - ts) gate.greylist_min_retry_ms
    then early
    else waited

abbrev pub rate_reason : Bytes
rate_reason = codes "4.7.1 rate limit exceeded, slow down and retry later"

-- The source's text has a dash and a section sign, in UTF-8.
abbrev pub cold_reason : Bytes
cold_reason =
    codes "4.7.1 greylisted "
    ++ 0xe2 ∷ 0x80 ∷ 0x94 ∷ codes " please retry shortly (cost for cold contact, "
    ++ 0xc2 ∷ 0xa7 ∷ codes "9)"

abbrev pub early_reason : Bytes
early_reason =
    codes "4.7.1 greylisted " ++ 0xe2 ∷ 0x80 ∷ 0x94 ∷ codes " retry interval not yet elapsed"

-- Step 4, with the window of the IP written back.
unfoldable pub greylisted :
    ColdSenderGate → GateState → Bytes → Bytes → ℕ → AbuseDecision × GateState
greylisted gate st peer_ip mail_from now =
    elim (sighted gate (get st.greylist (peer_ip, mail_from)) now) [
      | cold ↦ (
        reject 451 cold_reason,
        record st { greylist = insert st.greylist (peer_ip, mail_from) now },
      )
      | early ↦ (reject 451 early_reason, st)
      | waited ↦ (
        accept,
        record st {
          accepts = insert st.accepts peer_ip (or_none (get st.accepts peer_ip) ++ now ∷ []);
        },
      )
    ]

unfoldable pub check : ColdSenderGate → GateState → Bytes → Bytes → ℕ → AbuseDecision × GateState
unfolding is_blocked is_known greylisted
check gate st peer_ip mail_from now =
    let hits = recent gate st peer_ip now in
    let pruned = record st { accepts = insert st.accepts peer_ip hits } in
    if is_blocked gate peer_ip mail_from
    then (reject 554 (codes "5.7.1 sender blocked by policy"), st)
    else if is_known gate peer_ip mail_from
    then (accept, st)
    else if leb gate.rate_limit (length hits % 2 ^ 32)
    then (reject 451 rate_reason, pruned)
    else greylisted gate pruned peer_ip mail_from now
