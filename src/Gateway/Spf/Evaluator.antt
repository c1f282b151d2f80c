-- ===== src/Gateway/Spf/Evaluator.antt =====
-- The evaluation in crates/gateway/src/spf.rs. A resolver answers out of a state of its own (the
-- network, or a table), which each query may change.
use vulos_relay.Base.{
  ℕ, ◌+◌, Bool, Option, none, some, List, [], ◌∷◌, Bytes, ltb, if◌then◌else◌, any,
}
use vulos_relay.Gateway.Spf.Address.{IpAddr, v4, v6, ipv4_in_cidr, ipv6_in_cidr}
use vulos_relay.Gateway.Spf.Verdict
use vulos_relay.Gateway.Spf.Verdict.{
  SpfResult, pass, fail, soft_fail, neutral, temp_error, perm_error,
}
use vulos_relay.Gateway.Spf.Record
use vulos_relay.Gateway.Spf.Record.{
  Qualifier, Mechanism, all, include, a, mx, ip4, ip6, ptr, exists, ParsedRecord, parse_record,
  normalize, is_spf1_record, has_percent, mechanism_has_macro,
}

-- The answer of a query; `none` is `Err(())`.
abbrev pub Answer : Type 0 → Type 0
Answer A = Option (List A)

pub record SpfResolver (W : Type 0) : Type 0 where
  pub lookup_txt : Bytes → W → Answer Bytes × W
  pub lookup_a : Bytes → W → Answer ℕ × W
  pub lookup_aaaa : Bytes → W → Answer ℕ × W
  pub lookup_mx : Bytes → W → Answer Bytes × W

abbrev pub default_max_lookups : ℕ
default_max_lookups = 10

abbrev pub default_max_void_lookups : ℕ
default_max_void_lookups = 2

abbrev pub max_chain_depth : ℕ
max_chain_depth = 10

unfoldable pub qualifier_to_result : Qualifier → SpfResult
qualifier_to_result Record.pass = pass
qualifier_to_result Record.fail = fail
qualifier_to_result Record.soft_fail = soft_fail
qualifier_to_result Record.neutral = neutral

pub data MechOutcome : Type 0 where
  matched no_match : MechOutcome
  abort : SpfResult → MechOutcome

-- The evaluator's counters, with the resolver's state.
pub record Evaluator (W : Type 0) : Type 0 where
  pub net : W
  pub lookups : ℕ
  pub max_lookups : ℕ
  pub void_lookups : ℕ
  pub max_void_lookups : ℕ

abbrev pub Step : Type 0 → Type 0 → Type 0
Step W A = Evaluator W → A × Evaluator W

abbrev pub found : Bool → MechOutcome
found b = if b then matched else no_match

abbrev pub or_current : Option Bytes → Bytes → Bytes
or_current none current_domain = current_domain
or_current (some d) current_domain = d

-- What an `include` makes of the included domain's result.
abbrev pub included : SpfResult → MechOutcome
included pass = matched
included fail = no_match
included soft_fail = no_match
included neutral = no_match
included temp_error = abort temp_error
included Verdict.none = abort perm_error
included perm_error = abort perm_error

module _ {W : Type 0} where
  unfoldable pub charge_lookup : Step W (Option SpfResult)
  charge_lookup ev =
      let ev₁ = record ev { lookups = ev.lookups + 1 } in
      (if ltb ev.max_lookups (ev.lookups + 1) then some perm_error else none, ev₁)

  unfoldable pub charge_void : Step W (Option SpfResult)
  charge_void ev =
      let ev₁ = record ev { void_lookups = ev.void_lookups + 1 } in
      (if ltb ev.max_void_lookups (ev.void_lookups + 1) then some perm_error else none, ev₁)

  -- `if let Err(e) = self.charge_lookup() { return … }`, with what is made of `e`, then the rest.
  unfoldable pub charged : {A : Type 0} → (SpfResult → A) → Step W A → Step W A
  unfolding charge_lookup
  charged error rest ev =
      let (o, ev₁) = charge_lookup ev in elim o [ some e ↦ (error e, ev₁) | none ↦ rest ev₁ ]

  -- An empty answer.
  unfoldable pub void : Step W MechOutcome
  unfolding charge_void
  void ev =
      let (o, ev₁) = charge_void ev in elim o [ some e ↦ (abort e, ev₁) | none ↦ (no_match, ev₁) ]

  -- What is done with an answer: its failure, no record, and some.
  unfoldable pub replied {ℓ} :
      {A : Type ℓ} → (List A → Step W MechOutcome) → Option (List A) → Step W MechOutcome
  unfolding void
  replied rest none ev = (abort temp_error, ev)
  replied rest (some []) ev = void ev
  replied rest (some (x ∷ xs)) ev = rest (x ∷ xs) ev

  unfoldable pub asked {ℓ} :
      {A : Type ℓ} → (W → Option (List A) × W) → (List A → Step W MechOutcome) → Step W MechOutcome
  unfolding replied
  asked query rest ev =
      let (answer, net₁) = query ev.net in replied rest answer (record ev { net = net₁ })

  module _ (resolver : SpfResolver W) where
    unfoldable pub match_address_lookup : Bytes → IpAddr → ℕ → ℕ → Step W MechOutcome
    unfolding asked ipv4_in_cidr ipv6_in_cidr
    match_address_lookup target (v4 ip) cidr4 cidr6 =
        asked (resolver.lookup_a target)
          (λ ips ev. (found (any (λ x. ipv4_in_cidr ip x cidr4) ips), ev))
    match_address_lookup target (v6 ip) cidr4 cidr6 =
        asked (resolver.lookup_aaaa target)
          (λ ips ev. (found (any (λ x. ipv6_in_cidr ip x cidr6) ips), ev))

    -- The loop over the hosts of an `mx` mechanism.
    unfoldable pub match_hosts : IpAddr → ℕ → ℕ → List Bytes → Step W MechOutcome
    unfolding charged match_address_lookup normalize
    match_hosts ip cidr4 cidr6 [] ev = (no_match, ev)
    match_hosts ip cidr4 cidr6 (host ∷ hosts) ev =
        let (o, ev₁) = charged abort (match_address_lookup (normalize host) ip cidr4 cidr6) ev in
        elim o [
          | matched ↦ (matched, ev₁)
          | abort r ↦ (abort r, ev₁)
          | no_match ↦ match_hosts ip cidr4 cidr6 hosts ev₁
        ]

    -- The argument `recur` is `check_host` one level deeper.
    module _ (recur : Bytes → Step W SpfResult) (ip : IpAddr) where
      unfoldable pub eval_mechanism : Mechanism → Bytes → Step W MechOutcome
      unfolding charged asked match_address_lookup match_hosts normalize ipv4_in_cidr ipv6_in_cidr
      eval_mechanism all current_domain ev = (matched, ev)
      eval_mechanism (include target) current_domain ev =
          charged abort (λ ev₁. let (r, ev₂) = recur target ev₁ in (included r, ev₂)) ev
      eval_mechanism (ip4 net cidr) current_domain ev = elim ip [
        | v4 x ↦ (found (ipv4_in_cidr x net cidr), ev)
        | v6 x ↦ (no_match, ev)
      ]
      eval_mechanism (ip6 net cidr) current_domain ev = elim ip [
        | v6 x ↦ (found (ipv6_in_cidr x net cidr), ev)
        | v4 x ↦ (no_match, ev)
      ]
      eval_mechanism (a domain cidr4 cidr6) current_domain ev =
          let target = normalize (or_current domain current_domain) in
          charged abort (match_address_lookup target ip cidr4 cidr6) ev
      eval_mechanism (mx domain cidr4 cidr6) current_domain ev =
          let target = normalize (or_current domain current_domain) in
          charged abort (asked (resolver.lookup_mx target) (match_hosts ip cidr4 cidr6)) ev
      eval_mechanism ptr current_domain ev = charged abort (λ ev₁. (no_match, ev₁)) ev
      eval_mechanism (exists target) current_domain ev =
          let query = resolver.lookup_a (normalize target) in
          charged abort (asked query (λ ips ev₁. (matched, ev₁))) ev

      -- The loop over the mechanisms: a result to return, or none when it runs to its end.
      unfoldable pub eval_mechanisms :
          Bytes → List (Qualifier × Mechanism) → Step W (Option SpfResult)
      unfolding eval_mechanism mechanism_has_macro qualifier_to_result
      eval_mechanisms current_domain [] ev = (none, ev)
      eval_mechanisms current_domain ((q, m) ∷ mechanisms) ev =
          if mechanism_has_macro m
          then (some perm_error, ev)
          else (let (o, ev₁) = eval_mechanism m current_domain ev in
              let rest = eval_mechanisms current_domain mechanisms ev₁ in
              elim o [
                | matched ↦ (some (qualifier_to_result q), ev₁)
                | no_match ↦ rest
                | abort r ↦ (some r, ev₁)
              ])

      -- The `redirect` modifier, when no mechanism matched.
      unfoldable pub follow : Option Bytes → Step W SpfResult
      unfolding charged
      follow none ev = (neutral, ev)
      follow (some target) ev =
          if has_percent target then (perm_error, ev) else charged (λ e. e) (recur target) ev

      unfoldable pub eval_record : Option ParsedRecord → Bytes → Step W SpfResult
      unfolding eval_mechanisms follow
      eval_record none current_domain ev = (perm_error, ev)
      eval_record (some parsed) current_domain ev =
          let (o, ev₁) = eval_mechanisms current_domain parsed.mechanisms ev in
          elim o [ some r ↦ (r, ev₁) | none ↦ follow parsed.redirect ev₁ ]

      -- The candidates among the TXT records.
      unfoldable pub eval_candidates : List Bytes → Bytes → Step W SpfResult
      unfolding eval_record parse_record
      eval_candidates [] current_domain ev = (Verdict.none, ev)
      eval_candidates (t ∷ []) current_domain ev = eval_record (parse_record t) current_domain ev
      eval_candidates (t ∷ u ∷ ts) current_domain ev = (perm_error, ev)
