-- ===== src/Gateway/Spf/Verdict.antt =====
-- The verdicts of crates/gateway/src/spf.rs.
use vulos_relay.Base.{[], Bytes}

pub data SpfResult : Type 0 where
  pass fail soft_fail neutral none temp_error perm_error : SpfResult

pub record SpfOutcome : Type 0 where
  pub result : SpfResult
  pub domain : Bytes

unfoldable pub unevaluated : SpfOutcome
unevaluated = record { result = none; domain = [] }
