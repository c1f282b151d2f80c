-- ===== src/Tests/Admitting.antt =====
-- Quotas and admissions on small inputs.
use vulos_relay.Base.{
  ◌≡◌, ◌≢◌, ◌⊎◌, refl, min, Bool, none, some, List, [], ◌∷◌, Bytes, bytes_eq, bytes_beq, codes,
}
use vulos_relay.Base.Dict.{Dict, get, insert, remove}
use vulos_relay.Base.Words.{u64_max}
use vulos_relay.Base.Result.{ok, err}
use vulos_relay.Gateway.Quota
use vulos_relay.Gateway.Quota.{Quota, Usage, outbound, usage}
use vulos_relay.Gateway.Quota.Charging.{Fits}
use vulos_relay.Gateway.Quota.Relaying
use vulos_relay.Gateway.Quota.Relaying.{Relay, billed, ledger_of, no_events, relays_metered}
use vulos_relay.Gateway.Admission
use vulos_relay.Gateway.Admission.{
  key_registered, Challenge, RegisteredIdentity, Admission, AdmissionError, IdentityRegistry,
  challenge_expired, unknown_or_consumed_challenge, resolve_key, admit,
}
use vulos_relay.Gateway.Admission.Sound.{IsAdmitted, IsIdentified, IsRefused, admit_outcome}
use vulos_relay.Gateway.Admission.Once
use vulos_relay.Gateway.Admission.Once.{issues, admits, run, admitted_once}

abbrev acme : Bytes
acme = codes "acme"

abbrev quota : Quota
quota = record { free_messages = 0; hard_cap_messages = 1; free_bytes = 0; hard_cap_bytes = 0 }

abbrev limits : Dict Bytes Quota
limits = (acme, quota) ∷ []

abbrev sent : Bytes → Relay
sent account = record {
  account = account;
  domain = codes "acme.org";
  direction = outbound;
  rfc5322_bytes = codes "hello";
  at = 5;
}

abbrev digest : Bytes → Bytes
digest m = m

-- One message passes, the next meets the cap, and a stranger has no quota.
abbrev relays : List Relay
relays = sent acme ∷ sent acme ∷ sent (codes "eve") ∷ []

billed_once :
    billed acme (Relaying.run digest (ledger_of digest limits) (no_events digest) relays).1 ≡ 1
unfolding Relaying.run Relaying.relay Quota.charge_and_meter Quota.try_charge Quota.charge_within
    Quota.usage Quota.record_event get insert bytes_beq
billed_once = refl

relays_metered_example :
    ((usage
        (Relaying.run digest (ledger_of digest limits) (no_events digest) relays).0
        acme).messages
      ≡ min
          (billed acme (Relaying.run digest (ledger_of digest limits) (no_events digest) relays).1)
          u64_max)
    × ((get limits acme ≡ none)
        ⊎ ((q : Quota) × (get limits acme ≡ some q)
            × Fits q (
                usage
                  (Relaying.run digest (ledger_of digest limits) (no_events digest) relays).0
                  acme)))
relays_metered_example = relays_metered digest limits relays acme

abbrev key : Bytes
key = 9 ∷ []

-- A signature is good when it is the key.
abbrev verifies : (k ds body sig : Bytes) → Bool
verifies k ds body sig = bytes_beq k sig

abbrev nonce : Bytes
nonce = 3 ∷ []

abbrev registry : IdentityRegistry
registry = record {
  mode = key_registered;
  challenge_ttl_ms = 300_000;
  entries =
      record { public_key = key; account = acme; domain = codes "acme.org"; quota = quota } ∷ [];
  issued_nonces = (nonce, 1000) ∷ [];
}

abbrev challenge : Challenge
challenge = record { nonce = nonce; issued_at = 1000 }

abbrev admission : Admission
admission = record { account = acme; domain = codes "acme.org"; public_key = key }

admitted : (admit digest verifies registry challenge key key 2000).0 ≡ ok admission
unfolding admit Admission.is_stale Admission.peek_issued_at Admission.signing_body
    Admission.resolve_key Admission.identity_for_key Admission.spend Admission.consume_nonce get
    remove bytes_beq
admitted = refl

too_late : (admit digest verifies registry challenge key key 400_000).0 ≡ err challenge_expired
unfolding admit Admission.is_stale Admission.peek_issued_at get bytes_beq
too_late = refl

admit_outcome_example :
    ((ad : Admission) × ((admit digest verifies registry challenge key key 2000).0 ≡ ok ad)
      × IsIdentified digest verifies registry key ad
      × IsAdmitted digest verifies registry challenge key key 2000
          (admit digest verifies registry challenge key key 2000).1)
    ⊎ ((e : AdmissionError) × (admit digest verifies registry challenge key key 2000
          ≡ (err e, registry))
        × IsRefused digest verifies registry challenge key key 2000 e)
admit_outcome_example = admit_outcome digest verifies registry challenge key key 2000

other : (4 ∷ []) ≢ nonce
other e = cc e

abbrev between : List Once.Call
between = issues (4 ∷ []) 2500 ∷ admits challenge key key 2600 ∷ []

admitted_once_example :
    (e : AdmissionError) × ((admit digest verifies
        (run digest verifies (admit digest verifies registry challenge key key 2000).1 between)
        challenge
        key
        key
        3000).0
      ≡ err e)
admitted_once_example =
    admitted_once digest verifies registry challenge challenge key key key key 2000 3000 admission
      between admitted refl (other, tt)
