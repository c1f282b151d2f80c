-- ===== src/Gateway/Cold/Greylist.antt =====
-- What the gate of crates/gateway/src/inbound.rs decides, and which senders it accepts.
use vulos_relay.Base.{
  ℕ, ◌-◌, ◌%◌, ◌^◌, ◌≤◌, ◌<◌, ◌≡◌, refl, ◌⊎◌, inl, inr, true, false, Bool-cases, Option, none, some,
  [], ◌∷◌, ◌++◌, Bytes, bytes_eq, pair_eq, codes, leb, length, arith,
}
use vulos_relay.Base.Dict.{get, insert, get-insert_self}
use vulos_relay.Gateway.Cold.{
  AbuseDecision, accept, reject, GateState, ColdSenderGate, is_known, is_blocked, recent, Sighting,
  cold, early, waited, sighted, greylisted, check, rate_reason, cold_reason, early_reason,
}

-- The greylist entry that lets a sender in.
abbrev pub HasWaited : ColdSenderGate → GateState → Bytes → Bytes → ℕ → Type 0
HasWaited gate st peer_ip mail_from now =
    (ts : ℕ) × (get st.greylist (peer_ip, mail_from) ≡ some ts)
    × (gate.greylist_min_retry_ms ≤ now - ts)
    × (now - ts ≤ gate.greylist_ttl_ms)

-- A sender that was not seen, or so long ago that the entry is past its memory.
abbrev pub IsCold : ColdSenderGate → GateState → Bytes → Bytes → ℕ → Type 0
IsCold gate st peer_ip mail_from now =
    (get st.greylist (peer_ip, mail_from) ≡ none)
    ⊎ ((ts : ℕ) × (get st.greylist (peer_ip, mail_from) ≡ some ts)
        × (gate.greylist_ttl_ms < now - ts))

-- A sender that was seen, less than the retry delay ago.
abbrev pub IsEarly : ColdSenderGate → GateState → Bytes → Bytes → ℕ → Type 0
IsEarly gate st peer_ip mail_from now =
    (ts : ℕ) × (get st.greylist (peer_ip, mail_from) ≡ some ts)
    × (now - ts < gate.greylist_min_retry_ms)
    × (now - ts ≤ gate.greylist_ttl_ms)

-- The state in which the accepts of an IP are those in the window.
abbrev pub pruned : ColdSenderGate → GateState → Bytes → ℕ → GateState
pruned gate st peer_ip now = record st {
  accepts = insert st.accepts peer_ip (recent gate st peer_ip now);
}

-- What the gate does with a sender that is neither blocked nor known, below the limit of its IP.
abbrev pub GreylistOutcome :
    ColdSenderGate → GateState → Bytes → Bytes → ℕ → AbuseDecision × GateState → Type 0
GreylistOutcome gate st peer_ip mail_from now outcome =
    (IsCold gate st peer_ip mail_from now
      × (outcome ≡ (
        reject 451 cold_reason,
        record (pruned gate st peer_ip now) {
          greylist = insert st.greylist (peer_ip, mail_from) now;
        },
      )))
    ⊎ (IsEarly gate st peer_ip mail_from now
        × (outcome ≡ (reject 451 early_reason, pruned gate st peer_ip now)))
    ⊎ (HasWaited gate st peer_ip mail_from now
        × (outcome.0 ≡ accept)
        × (outcome.1.greylist ≡ st.greylist)
        × (outcome.1.accepts
            ≡ insert (pruned gate st peer_ip now).accepts peer_ip
                (recent gate st peer_ip now ++ now ∷ [])))

Sighting-cases : (s : Sighting) → (s ≡ cold) ⊎ (s ≡ early) ⊎ (s ≡ waited)
Sighting-cases cold = inl refl
Sighting-cases early = inr (inl refl)
Sighting-cases waited = inr (inr refl)

sighted-cold :
    (gate : ColdSenderGate) (o : Option ℕ) (now : ℕ)
    → sighted gate o now ≡ cold
    → (o ≡ none) ⊎ ((ts : ℕ) × (o ≡ some ts) × (gate.greylist_ttl_ms < now - ts))
sighted-cold gate none now h = inl refl
sighted-cold gate (some ts) now h = inr (ts, refl, ground (arith, h))

sighted-early :
    (gate : ColdSenderGate) (o : Option ℕ) (now : ℕ)
    → sighted gate o now ≡ early
    → (ts : ℕ) × (o ≡ some ts)
      × (now - ts < gate.greylist_min_retry_ms)
      × (now - ts ≤ gate.greylist_ttl_ms)
sighted-early gate none now h = ground (arith, h)
sighted-early gate (some ts) now h = (ts, refl, ground (arith, h), ground (arith, h))

sighted-waited :
    (gate : ColdSenderGate) (o : Option ℕ) (now : ℕ)
    → sighted gate o now ≡ waited
    → (ts : ℕ) × (o ≡ some ts)
      × (gate.greylist_min_retry_ms ≤ now - ts)
      × (now - ts ≤ gate.greylist_ttl_ms)
sighted-waited gate none now h = ground (arith, h)
sighted-waited gate (some ts) now h = (ts, refl, ground (arith, h), ground (arith, h))

greylisted-outcome :
    (gate : ColdSenderGate) (st : GateState) (peer_ip mail_from : Bytes) (now : ℕ)
    → GreylistOutcome gate st peer_ip mail_from now
        (greylisted gate (pruned gate st peer_ip now) peer_ip mail_from now)
unfolding greylisted
greylisted-outcome gate st peer_ip mail_from now =
    let o = get st.greylist (peer_ip, mail_from) in
    let hits = recent gate st peer_ip now in
    elim (Sighting-cases (sighted gate o now)) [
      | inl q ↦ inl (sighted-cold gate o now q, rw (greylisted, q) refl)
      | inr (inl q) ↦ inr (inl (sighted-early gate o now q, rw (greylisted, q) refl))
      | inr (inr q) ↦ inr (
          inr (
            sighted-waited gate o now q,
            rw (greylisted, q) refl,
            rw (greylisted, q) refl,
            rw (greylisted, q, get-insert_self st.accepts peer_ip hits) refl,
          ))
    ]

-- All outcomes of a check, with the state after it. A blocked sender is refused with 554, and a known
-- one that is not blocked is accepted, and neither changes the state. Any other loses the accepts of
-- its IP that are out of the window, and is refused with 451 where those left reach the limit. Else a
-- sender that was not seen within the memory is refused with 451 and remembered; one that was seen
-- less than the retry delay ago is refused with 451; and one that waited is accepted, and the accept
-- is entered for its IP.
pub check_outcome :
    (gate : ColdSenderGate) (st : GateState) (peer_ip mail_from : Bytes) (now : ℕ)
    → ((is_blocked gate peer_ip mail_from ≡ true)
        × (check gate st peer_ip mail_from now
            ≡ (reject 554 (codes "5.7.1 sender blocked by policy"), st)))
      ⊎ ((is_blocked gate peer_ip mail_from ≡ false)
          × (is_known gate peer_ip mail_from ≡ true)
          × (check gate st peer_ip mail_from now ≡ (accept, st)))
      ⊎ ((is_blocked gate peer_ip mail_from ≡ false)
          × (is_known gate peer_ip mail_from ≡ false)
          × (gate.rate_limit ≤ length (recent gate st peer_ip now) % 2 ^ 32)
          × (check gate st peer_ip mail_from now
              ≡ (reject 451 rate_reason, pruned gate st peer_ip now)))
      ⊎ ((is_blocked gate peer_ip mail_from ≡ false)
          × (is_known gate peer_ip mail_from ≡ false)
          × (length (recent gate st peer_ip now) % 2 ^ 32 < gate.rate_limit)
          × GreylistOutcome gate st peer_ip mail_from now (check gate st peer_ip mail_from now))
unfolding check
check_outcome gate st peer_ip mail_from now =
    elim (Bool-cases (is_blocked gate peer_ip mail_from)) [
      | inl b ↦ inl (b, rw (check, b) refl)
      | inr b ↦ elim (Bool-cases (is_known gate peer_ip mail_from)) [
        | inl k ↦ inr (inl (b, k, rw (check, b, k) refl))
        | inr k ↦
            elim (Bool-cases (leb gate.rate_limit (length (recent gate st peer_ip now) % 2 ^ 32))) [
              | inl r ↦ inr (inr (inl (b, k, ground (arith, r), rw (check, b, k, r) refl)))
              | inr r ↦ inr (
                  inr (
                    inr (
                      b,
                      k,
                      ground (arith, r),
                      rw (check, b, k, r) (greylisted-outcome gate st peer_ip mail_from now),
                    )))
            ]
      ]
    ]
