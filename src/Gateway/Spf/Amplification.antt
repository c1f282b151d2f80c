-- ===== src/Gateway/Spf/Amplification.antt =====
-- How many queries one evaluation of crates/gateway/src/spf.rs makes, and how many empty answers it
-- takes.
use vulos_relay.Base.{
  ℕ, zero, suc, ◌+◌, ◌≤◌, ◌≡◌, Bool-cases, Option, none, some, Option-cases, ◌⊎◌, inl, inr, List,
  [], ◌∷◌, arith, Bytes, keep,
}
use vulos_relay.Base.Text.{is_empty}
use vulos_relay.Gateway.Spf.Address.{IpAddr}
use vulos_relay.Gateway.Spf.Record.{
  Qualifier, Mechanism, ParsedRecord, parse_record, normalize, is_spf1_record, has_percent,
  mechanism_has_macro,
}
use vulos_relay.Gateway.Spf.Verdict
use vulos_relay.Gateway.Spf.Verdict.{SpfResult, neutral, temp_error, perm_error}
use vulos_relay.Gateway.Spf.Evaluator.{
  SpfResolver, Evaluator, Step, eval_mechanism, eval_mechanisms, qualifier_to_result, follow,
  eval_record, eval_candidates,
}
use vulos_relay.Gateway.Spf.Check.{check_host_at, check_host, fresh}
use vulos_relay.Gateway.Spf.Limits.{
  IsWithin, Costs, CostsOnly, empty_answer, Fits, perm, MechOutcome-cases, still, queried,
  Fits-then, Fits-as, goes_on, charged_fits, eval_mechanism_fits,
}

pub fresh-IsWithin : {W : Type 0} (w : W) → IsWithin (fresh w)
fresh-IsWithin w = record { lookups_le = omega arith; void_le = omega arith }

module _ {W : Type 0} (cost empties : W → ℕ) (resolver : SpfResolver W)
    (txt_cost : (d : Bytes) (w : W) → CostsOnly cost empties (resolver.lookup_txt d) w)
    (a_cost : (d : Bytes) (w : W) → Costs cost empties (resolver.lookup_a d) w)
    (aaaa_cost : (d : Bytes) (w : W) → Costs cost empties (resolver.lookup_aaaa d) w)
    (mx_cost : (d : Bytes) (w : W) → Costs cost empties (resolver.lookup_mx d) w) where
  module _ (recur : Bytes → Step W SpfResult) (ip : IpAddr)
      (recur_fits : (d : Bytes) (ev : Evaluator W)
        → IsWithin ev
        → Fits cost empties 1 perm_error ev (recur d ev)) where
    eval_mechanisms_fits :
        (current_domain : Bytes) (mechanisms : List (Qualifier × Mechanism)) (ev : Evaluator W)
        → IsWithin ev
        → Fits cost empties 0
            (some perm_error)
            ev
            (eval_mechanisms resolver recur ip current_domain mechanisms ev)
    unfolding eval_mechanisms
    eval_mechanisms_fits current_domain [] ev w = still cost empties (some perm_error) none ev w
    eval_mechanisms_fits current_domain ((q, m) ∷ mechanisms) ev w =
        let p = eval_mechanism resolver recur ip m current_domain ev in
        let f : Fits cost empties 0 (perm cost empties) ev p =
          eval_mechanism_fits cost empties resolver a_cost aaaa_cost mx_cost recur ip recur_fits m
            current_domain ev w in
        elim (Bool-cases (mechanism_has_macro m)) [
          | inl macro ↦
              rw (eval_mechanisms, macro)
                (still cost empties (some perm_error) (some perm_error) ev w)
          | inr macro ↦ elim (MechOutcome-cases p.0) [
            | inl e ↦
                rw (eval_mechanisms, macro, e)
                  (Fits-as cost empties 0 (perm cost empties) (some perm_error)
                    (some (qualifier_to_result q)) ev p (λ x. cc) f)
            | inr (inl e) ↦
                rw (eval_mechanisms, macro, e)
                  (Fits-then cost empties 0 0 (perm cost empties) (some perm_error) ev p _ f (
                    eval_mechanisms_fits current_domain mechanisms p.1
                      (goes_on cost empties 0 (perm cost empties) ev p f (λ x. cc))))
            | inr (inr (r, e)) ↦
                rw (eval_mechanisms, macro, e)
                  (Fits-as cost empties 0 (perm cost empties) (some perm_error) (some r) ev p
                    (λ x. cc) f)
          ]
        ]

    follow_fits :
        (redirect : Option Bytes) (ev : Evaluator W)
        → IsWithin ev
        → Fits cost empties 0 perm_error ev (follow resolver recur ip redirect ev)
    unfolding follow
    follow_fits none ev w = still cost empties perm_error neutral ev w
    follow_fits (some target) ev w = elim (Bool-cases (has_percent target)) [
      | inl macro ↦ rw (follow, macro) (still cost empties perm_error perm_error ev w)
      | inr macro ↦
          rw (follow, macro)
            (charged_fits cost empties (λ e. e) (recur target) ev w (recur_fits target))
    ]

    eval_record_fits :
        (parsed : Option ParsedRecord) (current_domain : Bytes) (ev : Evaluator W)
        → IsWithin ev
        → Fits cost empties 0 perm_error ev (eval_record resolver recur ip parsed current_domain ev)
    unfolding eval_record
    eval_record_fits none current_domain ev w = still cost empties perm_error perm_error ev w
    eval_record_fits (some parsed) current_domain ev w =
        let p = eval_mechanisms resolver recur ip current_domain parsed.mechanisms ev in
        let f : Fits cost empties 0 (some perm_error) ev p =
          eval_mechanisms_fits current_domain parsed.mechanisms ev w in
        elim (Option-cases p.0) [
          | inl e ↦
              rw (eval_record, e)
                (Fits-then cost empties 0 0 (some perm_error) perm_error ev p _ f (
                  follow_fits parsed.redirect p.1
                    (goes_on cost empties 0 (some perm_error) ev p f (λ x. cc))))
          | inr (r, e) ↦
              rw (eval_record, e)
                (Fits-as cost empties 0 (some perm_error) perm_error r ev p (λ x. cc) f)
        ]

    eval_candidates_fits :
        (txts : List Bytes) (current_domain : Bytes) (ev : Evaluator W)
        → IsWithin ev
        → Fits cost empties 0 perm_error ev
            (eval_candidates resolver recur ip txts current_domain ev)
    unfolding eval_candidates
    eval_candidates_fits [] current_domain ev w = still cost empties perm_error Verdict.none ev w
    eval_candidates_fits (t ∷ []) current_domain ev w =
        eval_record_fits (parse_record t) current_domain ev w
    eval_candidates_fits (t ∷ u ∷ ts) current_domain ev w =
        still cost empties perm_error perm_error ev w

  -- The TXT query is not charged.
  pub check_host_at_fits :
      (levels : ℕ) (ip : IpAddr) (domain : Bytes) (ev : Evaluator W)
      → IsWithin ev
      → Fits cost empties 1 perm_error ev (check_host_at resolver levels ip domain ev)
  unfolding check_host_at
  check_host_at_fits zero ip domain ev w =
      queried cost empties (λ v. (perm_error, v)) perm_error perm_error ev
        (omega arith, omega arith) w
  check_host_at_fits (suc levels) ip domain ev w =
      let d = normalize domain in
      let ev₁ = record ev { net = (resolver.lookup_txt d ev.net).1 } in
      let f : Fits cost empties 1 perm_error ev (Verdict.none, ev₁) =
        queried cost empties (resolver.lookup_txt d) perm_error Verdict.none ev (txt_cost d ev.net)
          w in
      let w₁ : IsWithin ev₁ = record { lookups_le = w.lookups_le; void_le = w.void_le } in
      elim (Bool-cases (is_empty d)) [
        | inl q ↦
            rw (check_host_at, q)
              (queried cost empties (λ v. (perm_error, v)) perm_error Verdict.none ev
                (omega arith, omega arith) w)
        | inr q ↦ elim (Option-cases (resolver.lookup_txt d ev.net).0) [
          | inl e ↦
              rw (check_host_at, q, e)
                (queried cost empties (resolver.lookup_txt d) perm_error temp_error ev
                  (txt_cost d ev.net) w)
          | inr (txts, e) ↦
              rw (check_host_at, q, e)
                (Fits-then cost empties 1 0 perm_error perm_error ev (Verdict.none, ev₁) _ f
                  (eval_candidates_fits (check_host_at resolver levels ip) ip
                    (check_host_at_fits levels ip) (keep is_spf1_record txts) d ev₁ w₁))
        ]
      ]

-- Where no query to the resolver costs more than one, evaluating a domain costs at most eleven,
-- whatever records the resolver answers with: an upper bound on the queries of one check.
pub queries_bounded :
    {W : Type 0} (cost : W → ℕ) (resolver : SpfResolver W)
    (txt_cost : (d : Bytes) (w : W) → cost (resolver.lookup_txt d w).1 ≤ cost w + 1)
    (a_cost : (d : Bytes) (w : W) → cost (resolver.lookup_a d w).1 ≤ cost w + 1)
    (aaaa_cost : (d : Bytes) (w : W) → cost (resolver.lookup_aaaa d w).1 ≤ cost w + 1)
    (mx_cost : (d : Bytes) (w : W) → cost (resolver.lookup_mx d w).1 ≤ cost w + 1) (ip : IpAddr)
    (domain : Bytes) (w : W)
    → cost (check_host resolver ip domain w).1 ≤ cost w + 11
unfolding check_host
queries_bounded cost resolver txt_cost a_cost aaaa_cost mx_cost ip domain w =
    let f =
      check_host_at_fits cost (λ v. 0) resolver (λ d v. (txt_cost d v, omega arith))
        (λ d v. (a_cost d v, omega arith)) (λ d v. (aaaa_cost d v, omega arith))
        (λ d v. (mx_cost d v, omega arith)) 11 ip domain (fresh w) (fresh-IsWithin w) in
    omega (arith, f.paid)

-- Where a count of the empty answers to address and MX queries goes up with no other query, an
-- evaluation gets at most two of them, or a third and the result `PermError`, whatever records the
-- resolver answers with.
pub voids_bounded :
    {W : Type 0} (empties : W → ℕ) (resolver : SpfResolver W)
    (txt_empties : (d : Bytes) (w : W) → empties (resolver.lookup_txt d w).1 ≤ empties w)
    (a_empties : (d : Bytes) (w : W)
      → empties (resolver.lookup_a d w).1 ≤ empties w + empty_answer (resolver.lookup_a d w).0)
    (aaaa_empties : (d : Bytes) (w : W)
      → empties (resolver.lookup_aaaa d w).1
        ≤ empties w + empty_answer (resolver.lookup_aaaa d w).0)
    (mx_empties : (d : Bytes) (w : W)
      → empties (resolver.lookup_mx d w).1 ≤ empties w + empty_answer (resolver.lookup_mx d w).0)
    (ip : IpAddr) (domain : Bytes) (w : W)
    → (empties (check_host resolver ip domain w).1 ≤ empties w + 2)
      ⊎ ((empties (check_host resolver ip domain w).1 ≤ empties w + 3)
          × ((check_host resolver ip domain w).0 ≡ perm_error))
unfolding check_host
voids_bounded empties resolver txt_empties a_empties aaaa_empties mx_empties ip domain w =
    let f =
      check_host_at_fits (λ v. 0) empties resolver (λ d v. (omega arith, txt_empties d v))
        (λ d v. (omega arith, a_empties d v)) (λ d v. (omega arith, aaaa_empties d v))
        (λ d v. (omega arith, mx_empties d v)) 11 ip domain (fresh w) (fresh-IsWithin w) in
    elim f.ended [
      | inl v ↦ inl (omega (arith, f.voided, f.same_void, v.void_le))
      | inr e ↦ inr (omega (arith, f.voided, f.same_void, f.void_le), e)
    ]
