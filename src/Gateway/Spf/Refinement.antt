-- ===== src/Gateway/Spf/Refinement.antt =====
-- The evaluator of crates/gateway/src/spf.rs against the policy with no limits.
use vulos_relay.Base.{
  ℕ, zero, suc, ◌+◌, ◌<◌, ltb, ◌≡◌, refl, Bool-cases, Option, none, some, Option-cases, ◌⊎◌, inl,
  inr, List, [], ◌∷◌, map, arith, Bytes, any, keep,
}
use vulos_relay.Base.Text.{is_empty}
use vulos_relay.Gateway.Spf.Address.{IpAddr, v4, v6, ipv4_in_cidr, ipv6_in_cidr}
use vulos_relay.Gateway.Spf.Record.{
  Qualifier, Mechanism, all, include, a, mx, ip4, ip6, ptr, exists, ParsedRecord, parse_record,
  normalize, is_spf1_record, has_percent, mechanism_has_macro,
}
use vulos_relay.Gateway.Spf.Verdict.{SpfResult, perm_error}
use vulos_relay.Gateway.Spf.Evaluator.{
  SpfResolver, Evaluator, Step, MechOutcome, matched, no_match, abort, charge_lookup, charge_void,
  charged, void, replied, asked, found, included, or_current, match_address_lookup, match_hosts,
  eval_mechanism, eval_mechanisms, follow, eval_record, eval_candidates,
}
use vulos_relay.Gateway.Spf.Check.{check_host_at, check_host, fresh}
use vulos_relay.Gateway.Spf.Limits.{MechOutcome-cases}
use vulos_relay.Gateway.Spf.Amplification.{fresh-IsWithin, check_host_at_fits}
use vulos_relay.Gateway.Spf.Policy.{
  first_outcome, first_some, answered, has_address, says, term_verdict, redirected, record_verdict,
  only, policy,
}

-- A counter is past its limit.
abbrev pub IsOver : Evaluator (Unit {0}) → Type 0
IsOver ev = (ev.max_lookups < ev.lookups) ⊎ (ev.max_void_lookups < ev.void_lookups)

-- A step returned what was wanted, or `bad` with a counter past its limit.
abbrev Follows : {A : Type 0} → A → A → A × Evaluator (Unit {0}) → Type 0
Follows bad want p = (p.0 ≡ want) ⊎ ((p.0 ≡ bad) × IsOver p.1)

abbrev perm : MechOutcome
perm = abort perm_error

Follows-as :
    {A B : Type 0} (g : A → B) (bad want : A) (p : A × Evaluator (Unit {0}))
    → Follows bad want p
    → Follows (g bad) (g want) (g p.0, p.1)
Follows-as g bad want p f = elim f [ inl e ↦ inl (cc e) | inr (e, over) ↦ inr (cc e, over) ]

charged-Follows :
    {A : Type 0} (error : SpfResult → A) (rest : Step (Unit {0}) A) (want : A)
    (ev : Evaluator (Unit {0}))
    → ((ev₁ : Evaluator (Unit {0})) → Follows (error perm_error) want (rest ev₁))
    → Follows (error perm_error) want (charged error rest ev)
unfolding charged charge_lookup
charged-Follows error rest want ev h = elim (Bool-cases (ltb ev.max_lookups (ev.lookups + 1))) [
  | inl q ↦ rw (charged, charge_lookup, q) (inr (refl, inl (ground (arith, q))))
  | inr q ↦ rw (charged, charge_lookup, q) (h (record ev { lookups = ev.lookups + 1 }))
]

void-Follows : (ev : Evaluator (Unit {0})) → Follows perm no_match (void ev)
unfolding void charge_void
void-Follows ev = elim (Bool-cases (ltb ev.max_void_lookups (ev.void_lookups + 1))) [
  | inl q ↦ rw (void, charge_void, q) (inr (refl, inr (ground (arith, q))))
  | inr q ↦ rw (void, charge_void, q) (inl refl)
]

replied-Follows :
    {A : Type 0} (rest : List A → Step (Unit {0}) MechOutcome) (f : List A → MechOutcome)
    (answer : Option (List A)) (ev : Evaluator (Unit {0}))
    → ((xs : List A) (ev₁ : Evaluator (Unit {0})) → Follows perm (f xs) (rest xs ev₁))
    → Follows perm (answered f answer) (replied rest answer ev)
unfolding replied
replied-Follows rest f none ev h = inl refl
replied-Follows rest f (some []) ev h = void-Follows ev
replied-Follows rest f (some (x ∷ xs)) ev h = h (x ∷ xs) ev

asked-Follows :
    {A : Type 0} (query : Unit {0} → Option (List A) × Unit {0})
    (rest : List A → Step (Unit {0}) MechOutcome) (f : List A → MechOutcome)
    (ev : Evaluator (Unit {0}))
    → ((xs : List A) (ev₁ : Evaluator (Unit {0})) → Follows perm (f xs) (rest xs ev₁))
    → Follows perm (answered f (query tt).0) (asked query rest ev)
unfolding asked
asked-Follows query rest f ev h = replied-Follows rest f (query tt).0 ev h

-- A query whose records decide with no more queries.
asked-found-Follows :
    {A : Type 0} (query : Unit {0} → Option (List A) × Unit {0}) (f : List A → MechOutcome)
    (ev : Evaluator (Unit {0}))
    → Follows perm (answered f (query tt).0) (asked query (λ xs ev₁. (f xs, ev₁)) ev)
asked-found-Follows query f ev =
    asked-Follows query (λ xs ev₁. (f xs, ev₁)) f ev (λ xs ev₁. inl refl)

module _ (resolver : SpfResolver (Unit {0})) where
  match_address_lookup-Follows :
      (host : Bytes) (ip : IpAddr) (cidr4 cidr6 : ℕ) (ev : Evaluator (Unit {0}))
      → Follows perm
          (has_address resolver ip cidr4 cidr6 host)
          (match_address_lookup resolver (normalize host) ip cidr4 cidr6 ev)
  unfolding match_address_lookup has_address
  match_address_lookup-Follows host (v4 ip) cidr4 cidr6 ev =
      asked-found-Follows (resolver.lookup_a (normalize host))
        (λ ips. found (any (λ x. ipv4_in_cidr ip x cidr4) ips)) ev
  match_address_lookup-Follows host (v6 ip) cidr4 cidr6 ev =
      asked-found-Follows (resolver.lookup_aaaa (normalize host))
        (λ ips. found (any (λ x. ipv6_in_cidr ip x cidr6) ips)) ev

  match_hosts-Follows :
      (ip : IpAddr) (cidr4 cidr6 : ℕ) (hosts : List Bytes) (ev : Evaluator (Unit {0}))
      → Follows perm
          (first_outcome (map (has_address resolver ip cidr4 cidr6) hosts))
          (match_hosts resolver ip cidr4 cidr6 hosts ev)
  unfolding match_hosts
  match_hosts-Follows ip cidr4 cidr6 [] ev = inl refl
  match_hosts-Follows ip cidr4 cidr6 (host ∷ hosts) ev =
      let want = has_address resolver ip cidr4 cidr6 host in
      let p = charged abort (match_address_lookup resolver (normalize host) ip cidr4 cidr6) ev in
      let f : Follows perm want p =
        charged-Follows abort _ want ev (match_address_lookup-Follows host ip cidr4 cidr6) in
      elim f [
        | inr (e, over) ↦ rw (match_hosts, e) (inr (refl, over))
        | inl e ↦ elim (MechOutcome-cases want) [
          | inl q ↦ rw (match_hosts, e, q) (inl refl)
          | inr (inl q) ↦ rw (match_hosts, e, q) (match_hosts-Follows ip cidr4 cidr6 hosts p.1)
          | inr (inr (r, q)) ↦ rw (match_hosts, e, q) (inl refl)
        ]
      ]

  module _ (recur : Bytes → Step (Unit {0}) SpfResult) (verdict_of : Bytes → SpfResult)
      (ip : IpAddr)
      (recur_follows : (d : Bytes) (ev : Evaluator (Unit {0}))
        → Follows perm_error (verdict_of d) (recur d ev)) where
    eval_mechanism-Follows :
        (m : Mechanism) (domain : Bytes) (ev : Evaluator (Unit {0}))
        → Follows perm
            (says resolver verdict_of ip domain m)
            (eval_mechanism resolver recur ip m domain ev)
    unfolding eval_mechanism says
    eval_mechanism-Follows all domain ev = inl refl
    eval_mechanism-Follows (include target) domain ev = charged-Follows abort _ _ ev (λ ev₁.
        Follows-as included perm_error (verdict_of target) (recur target ev₁)
          (recur_follows target ev₁))
    eval_mechanism-Follows (ip4 net cidr) domain ev =
        elim ip
          as (λ k.
            Follows perm (says resolver verdict_of k domain (ip4 net cidr))
              (eval_mechanism resolver recur k (ip4 net cidr) domain ev)) [
                | v4 x ↦ inl refl
                | v6 x ↦ inl refl
              ]
    eval_mechanism-Follows (ip6 net cidr) domain ev =
        elim ip
          as (λ k.
            Follows perm (says resolver verdict_of k domain (ip6 net cidr))
              (eval_mechanism resolver recur k (ip6 net cidr) domain ev)) [
                | v4 x ↦ inl refl
                | v6 x ↦ inl refl
              ]
    eval_mechanism-Follows (a named cidr4 cidr6) domain ev =
        charged-Follows abort _ _ ev
          (match_address_lookup-Follows (or_current named domain) ip cidr4 cidr6)
    eval_mechanism-Follows (mx named cidr4 cidr6) domain ev = charged-Follows abort _ _ ev (λ ev₁.
        asked-Follows (resolver.lookup_mx (normalize (or_current named domain))) _ _ ev₁
          (match_hosts-Follows ip cidr4 cidr6))
    eval_mechanism-Follows ptr domain ev =
        charged-Follows abort (λ ev₁. (no_match, ev₁)) no_match ev (λ ev₁. inl refl)
    eval_mechanism-Follows (exists target) domain ev =
        charged-Follows abort _ _ ev
          (asked-found-Follows (resolver.lookup_a (normalize target)) (λ ips. matched))

    eval_mechanisms-Follows :
        (domain : Bytes) (mechanisms : List (Qualifier × Mechanism)) (ev : Evaluator (Unit {0}))
        → Follows
            (some perm_error)
            (first_some (map (term_verdict resolver verdict_of ip domain) mechanisms))
            (eval_mechanisms resolver recur ip domain mechanisms ev)
    unfolding eval_mechanisms term_verdict
    eval_mechanisms-Follows domain [] ev = inl refl
    eval_mechanisms-Follows domain ((q, m) ∷ mechanisms) ev =
        let p = eval_mechanism resolver recur ip m domain ev in
        let want = says resolver verdict_of ip domain m in
        let f : Follows perm want p = eval_mechanism-Follows m domain ev in
        elim (Bool-cases (mechanism_has_macro m)) [
          | inl macro ↦ rw (eval_mechanisms, macro) (inl refl)
          | inr macro ↦ elim f [
            | inr (e, over) ↦ rw (eval_mechanisms, macro, e) (inr (refl, over))
            | inl e ↦ elim (MechOutcome-cases want) [
              | inl w ↦ rw (eval_mechanisms, macro, e, w) (inl refl)
              | inr (inl w) ↦
                  rw (eval_mechanisms, macro, e, w) (eval_mechanisms-Follows domain mechanisms p.1)
              | inr (inr (r, w)) ↦ rw (eval_mechanisms, macro, e, w) (inl refl)
            ]
          ]
        ]

    follow-Follows :
        (redirect : Option Bytes) (ev : Evaluator (Unit {0}))
        → Follows perm_error
            (redirected resolver verdict_of ip redirect)
            (follow resolver recur ip redirect ev)
    unfolding follow
    follow-Follows none ev = inl refl
    follow-Follows (some target) ev = elim (Bool-cases (has_percent target)) [
      | inl macro ↦ rw (follow, macro) (inl refl)
      | inr macro ↦
          rw (follow, macro)
            (charged-Follows (λ e. e) (recur target) (verdict_of target) ev (recur_follows target))
    ]

    eval_record-Follows :
        (parsed : Option ParsedRecord) (domain : Bytes) (ev : Evaluator (Unit {0}))
        → Follows perm_error
            (record_verdict resolver verdict_of ip domain parsed)
            (eval_record resolver recur ip parsed domain ev)
    unfolding eval_record record_verdict
    eval_record-Follows none domain ev = inl refl
    eval_record-Follows (some parsed) domain ev =
        let p = eval_mechanisms resolver recur ip domain parsed.mechanisms ev in
        let want =
          first_some (map (term_verdict resolver verdict_of ip domain) parsed.mechanisms) in
        let f : Follows (some perm_error) want p =
          eval_mechanisms-Follows domain parsed.mechanisms ev in
        elim f [
          | inr (e, over) ↦ rw (eval_record, e) (inr (refl, over))
          | inl e ↦ elim (Option-cases want) [
            | inl w ↦ rw (eval_record, e, w) (follow-Follows parsed.redirect p.1)
            | inr (r, w) ↦ rw (eval_record, e, w) (inl refl)
          ]
        ]

    eval_candidates-Follows :
        (txts : List Bytes) (domain : Bytes) (ev : Evaluator (Unit {0}))
        → Follows perm_error
            (only resolver verdict_of ip domain txts)
            (eval_candidates resolver recur ip txts domain ev)
    unfolding eval_candidates
    eval_candidates-Follows [] domain ev = inl refl
    eval_candidates-Follows (t ∷ []) domain ev = eval_record-Follows (parse_record t) domain ev
    eval_candidates-Follows (t ∷ u ∷ ts) domain ev = inl refl

  check_host_at-Follows :
      (levels : ℕ) (ip : IpAddr) (domain : Bytes) (ev : Evaluator (Unit {0}))
      → Follows perm_error
          (policy resolver levels ip domain)
          (check_host_at resolver levels ip domain ev)
  unfolding check_host_at policy
  check_host_at-Follows zero ip domain ev = inl refl
  check_host_at-Follows (suc levels) ip domain ev =
      let d = normalize domain in
      elim (Bool-cases (is_empty d)) [
        | inl q ↦ rw (check_host_at, q) (inl refl)
        | inr q ↦ elim (Option-cases (resolver.lookup_txt d tt).0) [
          | inl e ↦ rw (check_host_at, q, e) (inl refl)
          | inr (txts, e) ↦
              rw (check_host_at, q, e)
                (eval_candidates-Follows (check_host_at resolver levels ip)
                  (policy resolver levels ip) ip (check_host_at-Follows levels ip)
                  (keep is_spf1_record txts) d (record ev { net = tt }))
        ]
      ]

-- Where the resolver's answers do not change, the evaluator's result is what the policy says with no
-- limits on lookups; or it is `PermError`, and more than ten lookups or two void lookups were
-- charged.
pub check_host_refines :
    (resolver : SpfResolver (Unit {0})) (ip : IpAddr) (domain : Bytes)
    → ((check_host resolver ip domain tt).0 ≡ policy resolver 11 ip domain)
      ⊎ (((check_host resolver ip domain tt).0 ≡ perm_error)
          × ((10 < (check_host_at resolver 11 ip domain (fresh tt)).1.lookups)
              ⊎ (2 < (check_host_at resolver 11 ip domain (fresh tt)).1.void_lookups)))
unfolding check_host
check_host_refines resolver ip domain =
    let f =
      check_host_at_fits (λ v. 0) (λ v. 0) resolver (λ d v. (omega arith, omega arith))
        (λ d v. (omega arith, omega arith)) (λ d v. (omega arith, omega arith))
        (λ d v. (omega arith, omega arith)) 11 ip domain (fresh tt) (fresh-IsWithin tt) in
    elim (check_host_at-Follows resolver 11 ip domain (fresh tt)) [
      | inl e ↦ inl e
      | inr (e, inl over) ↦ inr (e, inl (omega (arith, f.same, over)))
      | inr (e, inr over) ↦ inr (e, inr (omega (arith, f.same_void, over)))
    ]
