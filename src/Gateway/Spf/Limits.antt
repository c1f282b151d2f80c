-- ===== src/Gateway/Spf/Limits.antt =====
-- What the evaluation in crates/gateway/src/spf.rs may spend: its counters, the queries that it sends
-- to the resolver, and the empty answers among them.
use vulos_relay.Base.{
  ℕ, suc, ◌+◌, ◌-◌, ◌≤◌, ltb, ◌≡◌, ◌≢◌, refl, Bool-cases, Option, none, some, ◌⊎◌, inl, inr, List,
  [], ◌∷◌, arith, Bytes, any,
}
use vulos_relay.Gateway.Spf.Address.{IpAddr, v4, v6, ipv4_in_cidr, ipv6_in_cidr}
use vulos_relay.Gateway.Spf.Record.{
  Mechanism, all, include, a, mx, ip4, ip6, ptr, exists, normalize,
}
use vulos_relay.Gateway.Spf.Verdict.{SpfResult, temp_error, perm_error}
use vulos_relay.Gateway.Spf.Evaluator.{
  SpfResolver, Evaluator, Step, MechOutcome, matched, no_match, abort, charge_lookup, charge_void,
  charged, void, replied, asked, found, included, or_current, match_address_lookup, match_hosts,
  eval_mechanism,
}

-- No counter is past its limit.
pub record IsWithin {W : Type 0} (ev : Evaluator W) : Type 0 where
  pub lookups_le : ev.lookups ≤ ev.max_lookups
  pub void_le : ev.void_lookups ≤ ev.max_void_lookups

pub MechOutcome-cases :
    (o : MechOutcome) → (o ≡ matched) ⊎ (o ≡ no_match) ⊎ ((r : SpfResult) × (o ≡ abort r))
MechOutcome-cases matched = inl refl
MechOutcome-cases no_match = inr (inl refl)
MechOutcome-cases (abort r) = inr (inr (r, refl))

-- What an answer adds to the count of the empty ones.
abbrev pub empty_answer {ℓ} : {A : Type ℓ} → Option (List A) → ℕ
empty_answer none = 0
empty_answer (some []) = 1
empty_answer (some (x ∷ xs)) = 0

module _ {W : Type 0} (cost empties : W → ℕ) where
  -- A query that costs at most one, and is counted among the empty ones only if its answer is empty.
  abbrev pub Costs : {A : Type 0} → (W → Option (List A) × W) → W → Type 0
  Costs query w =
      (cost (query w).1 ≤ cost w + 1) × (empties (query w).1 ≤ empties w + empty_answer (query w).0)

  -- The same for a query whose answers are not counted.
  abbrev pub CostsOnly : {A : Type 0} → (W → A × W) → W → Type 0
  CostsOnly query w = (cost (query w).1 ≤ cost w + 1) × (empties (query w).1 ≤ empties w)

  -- The queries sent, and the lookups that are left.
  abbrev pub spent : Evaluator W → ℕ
  spent ev = cost ev.net + (ev.max_lookups - ev.lookups)

  -- From the evaluator `ev`, a step that returned `o` spent at most `k` more queries than the
  -- lookups that it charged, got no more empty answers than the void lookups that it charged, and a
  -- counter is past its limit, by one, only where `o` is `bad`.
  pub record Fits {A : Type 0} (k : ℕ) (bad : A) (ev : Evaluator W) (p : A × Evaluator W)
      : Type 0 where
    pub paid : spent p.1 ≤ spent ev + k
    pub voided : empties p.1.net + ev.void_lookups ≤ empties ev.net + p.1.void_lookups
    pub same : p.1.max_lookups ≡ ev.max_lookups
    pub same_void : p.1.max_void_lookups ≡ ev.max_void_lookups
    pub lookups_le : p.1.lookups ≤ suc p.1.max_lookups
    pub void_le : p.1.void_lookups ≤ suc p.1.max_void_lookups
    pub ended : IsWithin p.1 ⊎ (p.0 ≡ bad)

  -- A step that only returns.
  pub still : {A : Type 0} (bad o : A) (ev : Evaluator W) → IsWithin ev → Fits 0 bad ev (o, ev)
  still bad o ev w = record {
    paid = omega arith;
    voided = omega arith;
    same = refl;
    same_void = refl;
    lookups_le = omega (arith, w.lookups_le);
    void_le = omega (arith, w.void_le);
    ended = inl w;
  }

  -- The same, with a query in hand.
  more : (o : MechOutcome) (ev : Evaluator W) → IsWithin ev → Fits 1 (abort perm_error) ev (o, ev)
  more o ev w = record {
    paid = omega arith;
    voided = omega arith;
    same = refl;
    same_void = refl;
    lookups_le = omega (arith, w.lookups_le);
    void_le = omega (arith, w.void_le);
    ended = inl w;
  }

  -- A step, and what follows it.
  pub Fits-then :
      {A B : Type 0} (k j : ℕ) (bad₁ : A) (bad : B) (ev : Evaluator W) (p : A × Evaluator W)
      (q : B × Evaluator W)
      → Fits k bad₁ ev p
      → Fits j bad p.1 q
      → Fits (k + j) bad ev q
  Fits-then k j bad₁ bad ev p q f g = record {
    paid = omega (arith, f.paid, g.paid);
    voided = omega (arith, f.voided, g.voided);
    same = cc (f.same, g.same);
    same_void = cc (f.same_void, g.same_void);
    lookups_le = g.lookups_le;
    void_le = g.void_le;
    ended = g.ended;
  }

  -- The result of a step under another name, which is bad where the step's was.
  pub Fits-as :
      {A B : Type 0} (k : ℕ) (bad₁ : A) (bad o : B) (ev : Evaluator W) (p : A × Evaluator W)
      → (p.0 ≡ bad₁ → o ≡ bad)
      → Fits k bad₁ ev p
      → Fits k bad ev (o, p.1)
  Fits-as k bad₁ bad o ev p h f = record {
    paid = f.paid;
    voided = f.voided;
    same = f.same;
    same_void = f.same_void;
    lookups_le = f.lookups_le;
    void_le = f.void_le;
    ended = elim f.ended [ inl w ↦ inl w | inr e ↦ inr (h e) ];
  }

  -- The error of a charge that the limit refuses.
  abbrev pub perm : MechOutcome
  perm = abort perm_error

  pub charged_fits :
      {A : Type 0} (error : SpfResult → A) (rest : Step W A) (ev : Evaluator W)
      → IsWithin ev
      → ((ev₁ : Evaluator W) → IsWithin ev₁ → Fits 1 (error perm_error) ev₁ (rest ev₁))
      → Fits 0 (error perm_error) ev (charged error rest ev)
  unfolding charged charge_lookup
  charged_fits error rest ev w h = elim (Bool-cases (ltb ev.max_lookups (ev.lookups + 1))) [
    | inl q ↦
        rw (charged, charge_lookup, q)
          (record {
            paid = omega arith;
            voided = omega arith;
            same = refl;
            same_void = refl;
            lookups_le = omega (arith, w.lookups_le);
            void_le = omega (arith, w.void_le);
            ended = inr refl;
          })
    | inr q ↦
        let f =
          h (record ev { lookups = ev.lookups + 1 })
            (record { lookups_le = ground (arith, q); void_le = w.void_le }) in
        rw (charged, charge_lookup, q)
          (record {
            paid = ground (arith, f.paid, q);
            voided = omega (arith, f.voided);
            same = f.same;
            same_void = f.same_void;
            lookups_le = f.lookups_le;
            void_le = f.void_le;
            ended = f.ended;
          })
  ]

  -- A query whose answer is empty.
  void_fits :
      (net : W) (ev : Evaluator W)
      → cost net ≤ cost ev.net + 1
      → empties net ≤ empties ev.net + 1
      → IsWithin ev
      → Fits 1 perm ev (void (record ev { net = net }))
  unfolding void charge_void
  void_fits net ev c e w = elim (Bool-cases (ltb ev.max_void_lookups (ev.void_lookups + 1))) [
    | inl q ↦
        rw (void, charge_void, q)
          (record {
            paid = omega (arith, c);
            voided = omega (arith, e);
            same = refl;
            same_void = refl;
            lookups_le = omega (arith, w.lookups_le);
            void_le = omega (arith, w.void_le);
            ended = inr refl;
          })
    | inr q ↦
        rw (void, charge_void, q)
          (record {
            paid = omega (arith, c);
            voided = omega (arith, e);
            same = refl;
            same_void = refl;
            lookups_le = omega (arith, w.lookups_le);
            void_le = omega (arith, w.void_le);
            ended = inl (record { lookups_le = w.lookups_le; void_le = ground (arith, q) });
          })
  ]

  -- A query that is counted.
  pub queried :
      {A B : Type 0} (query : W → A × W) (bad o : B) (ev : Evaluator W)
      → CostsOnly query ev.net
      → IsWithin ev
      → Fits 1 bad ev (o, record ev { net = (query ev.net).1 })
  queried query bad o ev h w = record {
    paid = omega (arith, h.0);
    voided = omega (arith, h.1);
    same = refl;
    same_void = refl;
    lookups_le = omega (arith, w.lookups_le);
    void_le = omega (arith, w.void_le);
    ended = inl (record { lookups_le = w.lookups_le; void_le = w.void_le });
  }

  -- The three kinds of answer, each of a query to the state `net`.
  replied_fits :
      {A : Type 0} (rest : List A → Step W MechOutcome) (answer : Option (List A)) (net : W)
      (ev : Evaluator W)
      → cost net ≤ cost ev.net + 1
      → empties net ≤ empties ev.net + empty_answer answer
      → IsWithin ev
      → ((xs : List A) (ev₁ : Evaluator W) → IsWithin ev₁ → Fits 0 perm ev₁ (rest xs ev₁))
      → Fits 1 perm ev (replied rest answer (record ev { net = net }))
  unfolding replied
  replied_fits rest none net ev c e w h =
      queried (λ v. (tt, net)) perm (abort temp_error) ev (c, omega (arith, e)) w
  replied_fits rest (some []) net ev c e w h = void_fits net ev c e w
  replied_fits rest (some (x ∷ xs)) net ev c e w h =
      let ev₁ = record ev { net = net } in
      let w₁ : IsWithin ev₁ = record { lookups_le = w.lookups_le; void_le = w.void_le } in
      Fits-then 1 0 perm perm ev (no_match, ev₁) _
        (queried (λ v. (tt, net)) perm no_match ev (c, omega (arith, e)) w) (h (x ∷ xs) ev₁ w₁)

  asked_fits :
      {A : Type 0} (query : W → Option (List A) × W) (rest : List A → Step W MechOutcome)
      (ev : Evaluator W)
      → Costs query ev.net
      → IsWithin ev
      → ((xs : List A) (ev₁ : Evaluator W) → IsWithin ev₁ → Fits 0 perm ev₁ (rest xs ev₁))
      → Fits 1 perm ev (asked query rest ev)
  unfolding asked
  asked_fits query rest ev c w h =
      replied_fits rest (query ev.net).0 (query ev.net).1 ev c.0 c.1 w h

  -- A step that did not end badly left the counters within their limits.
  pub goes_on :
      {A : Type 0} (k : ℕ) (bad : A) (ev : Evaluator W) (p : A × Evaluator W)
      → Fits k bad ev p
      → p.0 ≢ bad
      → IsWithin p.1
  goes_on k bad ev p f h = elim f.ended [ inl w ↦ w | inr e ↦ elim (h e) [ ] ]

  module _ (resolver : SpfResolver W) (a_cost : (d : Bytes) (w : W) → Costs (resolver.lookup_a d) w)
      (aaaa_cost : (d : Bytes) (w : W) → Costs (resolver.lookup_aaaa d) w)
      (mx_cost : (d : Bytes) (w : W) → Costs (resolver.lookup_mx d) w) where
    match_address_lookup_fits :
        (target : Bytes) (ip : IpAddr) (cidr4 cidr6 : ℕ) (ev : Evaluator W)
        → IsWithin ev
        → Fits 1 perm ev (match_address_lookup resolver target ip cidr4 cidr6 ev)
    unfolding match_address_lookup
    match_address_lookup_fits target (v4 ip) cidr4 cidr6 ev w =
        asked_fits (resolver.lookup_a target) _ ev (a_cost target ev.net) w
          (λ xs ev₁. still perm (found (any (λ x. ipv4_in_cidr ip x cidr4) xs)) ev₁)
    match_address_lookup_fits target (v6 ip) cidr4 cidr6 ev w =
        asked_fits (resolver.lookup_aaaa target) _ ev (aaaa_cost target ev.net) w
          (λ xs ev₁. still perm (found (any (λ x. ipv6_in_cidr ip x cidr6) xs)) ev₁)

    match_hosts_fits :
        (ip : IpAddr) (cidr4 cidr6 : ℕ) (hosts : List Bytes) (ev : Evaluator W)
        → IsWithin ev
        → Fits 0 perm ev (match_hosts resolver ip cidr4 cidr6 hosts ev)
    unfolding match_hosts
    match_hosts_fits ip cidr4 cidr6 [] ev w = still perm no_match ev w
    match_hosts_fits ip cidr4 cidr6 (host ∷ hosts) ev w =
        let target = normalize host in
        let p = charged abort (match_address_lookup resolver target ip cidr4 cidr6) ev in
        let f : Fits 0 perm ev p =
          charged_fits abort _ ev w (match_address_lookup_fits target ip cidr4 cidr6) in
        elim (MechOutcome-cases p.0) [
          | inl q ↦ rw (match_hosts, q) (Fits-as 0 perm perm matched ev p (λ e. cc) f)
          | inr (inl q) ↦
              rw (match_hosts, q)
                (Fits-then 0 0 perm perm ev p _ f
                  (match_hosts_fits ip cidr4 cidr6 hosts p.1 (goes_on 0 perm ev p f (λ e. cc))))
          | inr (inr (r, q)) ↦ rw (match_hosts, q) (Fits-as 0 perm perm (abort r) ev p (λ e. cc) f)
        ]

    module _ (recur : Bytes → Step W SpfResult) (ip : IpAddr)
        (recur_fits : (d : Bytes) (ev : Evaluator W)
          → IsWithin ev
          → Fits 1 perm_error ev (recur d ev)) where
      pub eval_mechanism_fits :
          (m : Mechanism) (current_domain : Bytes) (ev : Evaluator W)
          → IsWithin ev
          → Fits 0 perm ev (eval_mechanism resolver recur ip m current_domain ev)
      unfolding eval_mechanism
      eval_mechanism_fits all current_domain ev w = still perm matched ev w
      eval_mechanism_fits (include target) current_domain ev w =
          charged_fits abort _ ev w (λ ev₁ w₁.
            Fits-as 1 perm_error perm (included (recur target ev₁).0) ev₁ (recur target ev₁)
              (λ e. rw e refl) (recur_fits target ev₁ w₁))
      eval_mechanism_fits (ip4 net cidr) current_domain ev w =
          elim ip
            as (λ k.
              Fits 0 perm ev (eval_mechanism resolver recur k (ip4 net cidr) current_domain ev)) [
                | v4 x ↦ still perm (found (ipv4_in_cidr x net cidr)) ev w
                | v6 x ↦ still perm no_match ev w
              ]
      eval_mechanism_fits (ip6 net cidr) current_domain ev w =
          elim ip
            as (λ k.
              Fits 0 perm ev (eval_mechanism resolver recur k (ip6 net cidr) current_domain ev)) [
                | v6 x ↦ still perm (found (ipv6_in_cidr x net cidr)) ev w
                | v4 x ↦ still perm no_match ev w
              ]
      eval_mechanism_fits (a domain cidr4 cidr6) current_domain ev w =
          charged_fits abort _ ev w (
            match_address_lookup_fits (normalize (or_current domain current_domain)) ip cidr4 cidr6)
      eval_mechanism_fits (mx domain cidr4 cidr6) current_domain ev w =
          let target = normalize (or_current domain current_domain) in
          charged_fits abort _ ev w (λ ev₁ w₁.
            asked_fits (resolver.lookup_mx target) _ ev₁ (mx_cost target ev₁.net) w₁
              (match_hosts_fits ip cidr4 cidr6))
      eval_mechanism_fits ptr current_domain ev w =
          charged_fits abort _ ev w (λ ev₁ w₁. more no_match ev₁ w₁)
      eval_mechanism_fits (exists target) current_domain ev w = charged_fits abort _ ev w (λ ev₁ w₁.
          asked_fits (resolver.lookup_a (normalize target)) _ ev₁
            (a_cost (normalize target) ev₁.net) w₁ (λ xs ev₁. still perm matched ev₁))
