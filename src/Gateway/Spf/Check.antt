-- ===== src/Gateway/Spf/Check.antt =====
-- `check_host` and `evaluate` of crates/gateway/src/spf.rs.
use vulos_relay.Base.{
  ℕ, zero, suc, ◌+◌, Option, none, some, [], Bytes, bytes_beq, codes, ◌||◌, if◌then◌else◌, keep,
}
use vulos_relay.Base.Text.{is_empty, trim, trim_start_matches, trim_end_matches, rsplit_once}
use vulos_relay.Gateway.Spf.Address.{IpAddr}
use vulos_relay.Gateway.Spf.Record.{normalize, is_spf1_record}
use vulos_relay.Gateway.Spf.Verdict
use vulos_relay.Gateway.Spf.Verdict.{SpfResult, SpfOutcome, temp_error, perm_error}
use vulos_relay.Gateway.Spf.Evaluator.{
  SpfResolver, Evaluator, Step, default_max_lookups, default_max_void_lookups, max_chain_depth,
  or_current, eval_candidates,
}

abbrev pub fresh : {W : Type 0} → W → Evaluator W
fresh w = record {
  net = w;
  lookups = 0;
  max_lookups = default_max_lookups;
  void_lookups = 0;
  max_void_lookups = default_max_void_lookups;
}

abbrev not_empty : Option (Bytes × Bytes) → Option Bytes
not_empty none = none
not_empty (some (l, d)) = if is_empty d then none else some d

unfoldable pub domain_of : Bytes → Option Bytes
unfolding trim trim_start_matches trim_end_matches rsplit_once is_empty
domain_of addr =
    not_empty (rsplit_once 64 (trim_end_matches 62 (trim_start_matches 60 (trim addr))))

-- The identity that is checked: the sender's domain, or the HELO domain.
unfoldable pub identity_of : Bytes → Bytes → Bytes
unfolding trim is_empty domain_of
identity_of mail_from helo =
    if is_empty (trim mail_from) || bytes_beq (trim mail_from) (codes "<>")
    then helo
    else (elim (domain_of (trim mail_from)) [ some d ↦ d | none ↦ helo ])

module _ {W : Type 0} (resolver : SpfResolver W) where
  -- `Evaluator::check_host` at the depth at which `levels` more levels are allowed: `levels` is
  -- `MAX_CHAIN_DEPTH + 1 - depth`, so that 0 is `depth > MAX_CHAIN_DEPTH`.
  unfoldable pub check_host_at : ℕ → IpAddr → Bytes → Step W SpfResult
  unfolding eval_candidates normalize is_empty is_spf1_record
  check_host_at zero ip domain ev = (perm_error, ev)
  check_host_at (suc levels) ip domain ev =
      let domain_n = normalize domain in
      if is_empty domain_n
      then (Verdict.none, ev)
      else (let (answer, net₁) = resolver.lookup_txt domain_n ev.net in
          let ev₁ = record ev { net = net₁ } in
          elim answer [
            | none ↦ (temp_error, ev₁)
            | some txts ↦
                eval_candidates resolver (check_host_at levels ip) ip (keep is_spf1_record txts)
                  domain_n ev₁
          ])

  -- The function `check_host`, with the resolver's state after it.
  unfoldable pub check_host : IpAddr → Bytes → W → SpfResult × W
  unfolding check_host_at
  check_host ip domain w =
      let (r, ev) = check_host_at (max_chain_depth + 1) ip domain (fresh w) in (r, ev.net)

  unfoldable pub evaluate : IpAddr → Bytes → Option Bytes → W → SpfOutcome × W
  unfolding identity_of is_empty check_host
  evaluate ip mail_from helo_domain w =
      let domain = identity_of mail_from (or_current helo_domain []) in
      if is_empty domain
      then (record { result = Verdict.none; domain = domain }, w)
      else (let (r, w₁) = check_host ip domain w in (record { result = r; domain = domain }, w₁))
