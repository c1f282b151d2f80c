-- ===== src/Gateway/Admission.antt =====
-- Admission to the gateway in crates/gateway/src/authz.rs: `IdentityRegistry`, its challenges and the
-- authorization gate. The verification of a signature and the content address of a key are of a
-- crate that is not in the repository, and parameters. The lock holds for a whole method.
pub mod Sound
pub mod Once
use vulos_relay.Base.{
  ℕ, ◌+◌, ◌-◌, ◌/◌, ◌%◌, ◌^◌, Bool, true, false, not, Option, none, some, List, [], ◌∷◌, ◌++◌,
  Bytes, bytes_eq, bytes_beq, codes, ltb, leb, ◌==◌, ◌&&◌, ◌||◌, if◌then◌else◌, keep, find,
}
use vulos_relay.Base.Dict.{Dict, get, insert, remove}
use vulos_relay.Base.Result.{Result, ok, err}
use vulos_relay.Base.Text.{to_ascii_lowercase, eq_ignore_ascii_case, trim}
use vulos_relay.Gateway.Quota.{Quota, BridgeDirection}
use vulos_relay.Gateway.Vanity.{key_fingerprint}

pub data AuthzMode : Type 0 where
  open_public key_registered : AuthzMode

pub data GatewayMode : Type 0 where
  private registered_clients_only public : GatewayMode

abbrev dashed : ℕ → ℕ
dashed c = if c == 95 then 45 else c

unfoldable pub replace_underscores : Bytes → Bytes
replace_underscores [] = []
replace_underscores (c ∷ s) = dashed c ∷ replace_underscores s

abbrev one_of : List Bytes → Bytes → Bool
one_of [] v = false
one_of (w ∷ ws) v = bytes_beq v w || one_of ws v

-- `GatewayMode::parse`
unfoldable pub parse_mode : Bytes → Option GatewayMode
unfolding replace_underscores to_ascii_lowercase trim bytes_beq
parse_mode v =
    let w = replace_underscores (to_ascii_lowercase (trim v)) in
    if one_of (codes "private" ∷ codes "single" ∷ codes "operator" ∷ []) w
    then some private
    else if one_of
        (codes "registered-clients-only"
          ∷ codes "registered-clients"
          ∷ codes "registered"
          ∷ codes "clients"
          ∷ [])
        w
    then some registered_clients_only
    else if one_of (codes "public" ∷ codes "open" ∷ codes "open-registration" ∷ []) w
    then some public
    else none

unfoldable pub label : GatewayMode → Bytes
label private = codes "private"
label registered_clients_only = codes "registered-clients-only"
label public = codes "public"

unfoldable pub is_zero_third_party : GatewayMode → Bool
is_zero_third_party private = true
is_zero_third_party registered_clients_only = false
is_zero_third_party public = false

pub record Challenge : Type 0 where
  pub nonce : Bytes
  pub issued_at : ℕ

-- `u64::to_be_bytes`
abbrev be_bytes : ℕ → Bytes
be_bytes n =
    n / 2 ^ 56 % 256
    ∷ n / 2 ^ 48 % 256
    ∷ n / 2 ^ 40 % 256
    ∷ n / 2 ^ 32 % 256
    ∷ n / 2 ^ 24 % 256
    ∷ n / 2 ^ 16 % 256
    ∷ n / 2 ^ 8 % 256
    ∷ n % 256
    ∷ []

unfoldable pub signing_body : Challenge → Bytes
signing_body challenge = challenge.nonce ++ be_bytes challenge.issued_at

abbrev pub admission_ds : Bytes
admission_ds = codes "DMTAP-v0/gateway-admission" ++ 0 ∷ []

pub record RegisteredIdentity : Type 0 where
  pub public_key : Bytes
  pub account : Bytes
  pub domain : Bytes
  pub quota : Quota

pub record Admission : Type 0 where
  pub account : Bytes
  pub domain : Bytes
  pub public_key : Bytes

pub data AdmissionError : Type 0 where
  challenge_expired bad_signature unknown_key unknown_or_consumed_challenge : AdmissionError

pub data AuthzDecision : Type 0 where
  allowed : Bytes → AuthzDecision
  denied : Bytes → AuthzDecision

pub record IdentityRegistry : Type 0 where
  pub mode : AuthzMode
  pub challenge_ttl_ms : ℕ
  pub entries : List RegisteredIdentity
  pub issued_nonces : Dict Bytes ℕ

-- `IdentityRegistry::key_registered` and `open_public`
unfoldable pub new : AuthzMode → IdentityRegistry
new mode = record { mode = mode; challenge_ttl_ms = 300_000; entries = []; issued_nonces = [] }

unfoldable pub with_challenge_ttl : IdentityRegistry → ℕ → IdentityRegistry
with_challenge_ttl reg ttl_ms = record reg { challenge_ttl_ms = ttl_ms }

unfoldable pub register : IdentityRegistry → RegisteredIdentity → IdentityRegistry
register reg identity = record reg {
  entries =
      keep (λ e. not (bytes_beq e.public_key identity.public_key)) reg.entries ++ identity ∷ [];
}

unfoldable pub identity_for_key : IdentityRegistry → Bytes → Option RegisteredIdentity
identity_for_key reg public_key = find (λ e. bytes_beq e.public_key public_key) reg.entries

unfoldable pub identity_for_domain : IdentityRegistry → Bytes → Option RegisteredIdentity
unfolding eq_ignore_ascii_case
identity_for_domain reg domain = find (λ e. eq_ignore_ascii_case e.domain domain) reg.entries

unfoldable pub issue_challenge : IdentityRegistry → Bytes → ℕ → Challenge × IdentityRegistry
issue_challenge reg nonce issued_at =
    let cutoff = issued_at - reg.challenge_ttl_ms in
    (
      record { nonce = nonce; issued_at = issued_at },
      record reg {
        issued_nonces = insert (keep (λ e. leb cutoff e.1) reg.issued_nonces) nonce issued_at;
      },
    )

unfoldable pub peek_issued_at : IdentityRegistry → Bytes → Option ℕ
peek_issued_at reg nonce = get reg.issued_nonces nonce

unfoldable pub consume_nonce :
    IdentityRegistry → Bytes → ℕ → Result AdmissionError ℕ × IdentityRegistry
consume_nonce reg nonce presented = elim (get reg.issued_nonces nonce) [
  | none ↦ (err unknown_or_consumed_challenge, reg)
  | some stored ↦
      if stored == presented
      then (ok stored, record reg { issued_nonces = remove reg.issued_nonces nonce })
      else (err unknown_or_consumed_challenge, reg)
]

abbrev pub unwrap_or : ℕ → Option ℕ → ℕ
unwrap_or d none = d
unwrap_or d (some n) = n

unfoldable pub is_stale : IdentityRegistry → Challenge → ℕ → Bool
unfolding peek_issued_at
is_stale reg challenge now =
    let issued = unwrap_or challenge.issued_at (peek_issued_at reg challenge.nonce) in
    ltb now issued || ltb reg.challenge_ttl_ms (now - issued)

module _ (digest : Bytes → Bytes) (verify_domain : (key ds body sig : Bytes) → Bool) where
  -- The identity that a proven key is admitted as, by the mode.
  abbrev admitted_as :
      AuthzMode → Option RegisteredIdentity → Bytes → Result AdmissionError Admission
  admitted_as mode (some id) key =
      ok (record { account = id.account; domain = id.domain; public_key = key })
  admitted_as key_registered none key = err unknown_key
  admitted_as open_public none key = ok (record {
    account = codes "anon:" ++ key_fingerprint digest key;
    domain = [];
    public_key = key;
  })

  unfoldable pub resolve_key : IdentityRegistry → Bytes → Result AdmissionError Admission
  unfolding identity_for_key key_fingerprint
  resolve_key reg key = admitted_as reg.mode (identity_for_key reg key) key

  -- The last gate: the nonce.
  unfoldable pub spend :
      IdentityRegistry → Challenge → Admission → Result AdmissionError Admission × IdentityRegistry
  unfolding consume_nonce
  spend reg challenge admission =
      let (r, reg₁) = consume_nonce reg challenge.nonce challenge.issued_at in
      elim r [ err e ↦ (err e, reg₁) | ok stored ↦ (ok admission, reg₁) ]

  unfoldable pub admit :
      IdentityRegistry
      → Challenge
      → Bytes
      → Bytes
      → ℕ
      → Result AdmissionError Admission × IdentityRegistry
  unfolding is_stale signing_body resolve_key spend
  admit reg challenge presented_key sig now =
      if is_stale reg challenge now
      then (err challenge_expired, reg)
      else if not (verify_domain presented_key admission_ds (signing_body challenge) sig)
      then (err bad_signature, reg)
      else (elim (resolve_key reg presented_key) [
        | err e ↦ (err e, reg)
        | ok admission ↦ spend reg challenge admission
      ])

unfoldable pub authorize : IdentityRegistry → BridgeDirection → Bytes → AuthzDecision
unfolding identity_for_domain
authorize reg direction domain = elim reg.mode [
  | open_public ↦ allowed (codes "public:" ++ domain)
  | key_registered ↦ elim (identity_for_domain reg domain) [
    | some id ↦ allowed id.account
    | none ↦ denied (codes "domain " ++ domain ++ codes " is not registered with this gateway")
  ]
]
