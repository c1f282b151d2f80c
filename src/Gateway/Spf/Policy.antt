-- ===== src/Gateway/Spf/Policy.antt =====
-- What an SPF record says of an address, with no limits on lookups (RFC 7208 sections 4.6 to 6): the
-- description that the evaluator of crates/gateway/src/spf.rs is held to. The answers are fixed.
use vulos_relay.Base.{
  ℕ, zero, suc, Option, none, some, List, [], ◌∷◌, map, Bytes, if◌then◌else◌, any, keep,
}
use vulos_relay.Base.Text.{is_empty}
use vulos_relay.Gateway.Spf.Address.{IpAddr, v4, v6, ipv4_in_cidr, ipv6_in_cidr}
use vulos_relay.Gateway.Spf.Record.{
  Qualifier, Mechanism, all, include, a, mx, ip4, ip6, ptr, exists, ParsedRecord, parse_record,
  normalize, is_spf1_record, has_percent, mechanism_has_macro,
}
use vulos_relay.Gateway.Spf.Verdict
use vulos_relay.Gateway.Spf.Verdict.{SpfResult, neutral, temp_error, perm_error}
use vulos_relay.Gateway.Spf.Evaluator.{
  Answer, SpfResolver, MechOutcome, matched, no_match, abort, found, included, or_current,
  qualifier_to_result,
}

-- The first that decides.
abbrev pub first_outcome : List MechOutcome → MechOutcome
first_outcome [] = no_match
first_outcome (matched ∷ os) = matched
first_outcome (abort r ∷ os) = abort r
first_outcome (no_match ∷ os) = first_outcome os

abbrev pub first_some : {A : Type 0} → List (Option A) → Option A
first_some [] = none
first_some (some x ∷ os) = some x
first_some (none ∷ os) = first_some os

abbrev pub answered {ℓ} : {A : Type ℓ} → (List A → MechOutcome) → Option (List A) → MechOutcome
answered f none = abort temp_error
answered f (some []) = no_match
answered f (some (x ∷ xs)) = f (x ∷ xs)

module _ (resolver : SpfResolver (Unit {0})) where
  unfoldable pub has_address : IpAddr → ℕ → ℕ → Bytes → MechOutcome
  has_address (v4 ip) cidr4 cidr6 host =
      answered (λ ips. found (any (λ x. ipv4_in_cidr ip x cidr4) ips))
        (resolver.lookup_a (normalize host) tt).0
  has_address (v6 ip) cidr4 cidr6 host =
      answered (λ ips. found (any (λ x. ipv6_in_cidr ip x cidr6) ips))
        (resolver.lookup_aaaa (normalize host) tt).0

  -- The argument `verdict_of` is the verdict of another domain.
  module _ (verdict_of : Bytes → SpfResult) (ip : IpAddr) where
    unfoldable pub says : Bytes → Mechanism → MechOutcome
    unfolding has_address
    says domain all = matched
    says domain (include target) = included (verdict_of target)
    says domain (ip4 net cidr) = elim ip [
      | v4 x ↦ found (ipv4_in_cidr x net cidr)
      | v6 x ↦ no_match
    ]
    says domain (ip6 net cidr) = elim ip [
      | v6 x ↦ found (ipv6_in_cidr x net cidr)
      | v4 x ↦ no_match
    ]
    says domain (a named cidr4 cidr6) = has_address ip cidr4 cidr6 (or_current named domain)
    says domain (mx named cidr4 cidr6) =
        answered (λ hosts. first_outcome (map (has_address ip cidr4 cidr6) hosts))
          (resolver.lookup_mx (normalize (or_current named domain)) tt).0
    says domain ptr = no_match
    says domain (exists target) =
        answered (λ ips. matched) (resolver.lookup_a (normalize target) tt).0

    abbrev pub decides : Qualifier → MechOutcome → Option SpfResult
    decides q matched = some (qualifier_to_result q)
    decides q no_match = none
    decides q (abort r) = some r

    unfoldable pub term_verdict : Bytes → Qualifier × Mechanism → Option SpfResult
    unfolding says
    term_verdict domain (q, m) =
        if mechanism_has_macro m then some perm_error else decides q (says domain m)

    abbrev pub redirected : Option Bytes → SpfResult
    redirected none = neutral
    redirected (some target) = if has_percent target then perm_error else verdict_of target

    abbrev pub or_redirected : Option SpfResult → Option Bytes → SpfResult
    or_redirected (some r) redirect = r
    or_redirected none redirect = redirected redirect

    unfoldable pub record_verdict : Bytes → Option ParsedRecord → SpfResult
    unfolding term_verdict
    record_verdict domain none = perm_error
    record_verdict domain (some parsed) =
        or_redirected (first_some (map (term_verdict domain) parsed.mechanisms)) parsed.redirect

    abbrev pub only : Bytes → List Bytes → SpfResult
    only domain [] = Verdict.none
    only domain (t ∷ []) = record_verdict domain (parse_record t)
    only domain (t ∷ u ∷ ts) = perm_error

    abbrev pub published : Bytes → Answer Bytes → SpfResult
    published domain none = temp_error
    published domain (some txts) = only domain (keep is_spf1_record txts)

  -- The verdict of a domain, where a chain of records has at most `levels` members.
  unfoldable pub policy : ℕ → IpAddr → Bytes → SpfResult
  unfolding record_verdict
  policy zero ip domain = perm_error
  policy (suc levels) ip domain =
      let d = normalize domain in
      let answer = (resolver.lookup_txt d tt).0 in
      if is_empty d then Verdict.none else published (policy levels ip) ip d answer
