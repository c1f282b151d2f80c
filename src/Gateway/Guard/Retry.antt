-- ===== src/Gateway/Guard/Retry.antt =====
-- The hint that a rate deferral gives.
use vulos_relay.Base.{
  ℕ, ◌+◌, ◌-◌, ◌<◌, ◌≤◌, ◌≡◌, refl, ap, max, ◌%◌, ◌^◌, true, false, List, [], ◌∷◌, bytes_eq, arith,
  ltb, leb, length, length-keep-le,
}
use vulos_relay.Base.Words.{u32_max}
use vulos_relay.Gateway.Guard.{
  OutboundSenderGuard, SenderState, throttle, reason_rate, is_allow, recent, retry_after,
  decide_send,
}

recent_le : (r s : ℕ) (xs : List ℕ) → r ≤ s → recent s xs ≡ xs → recent r xs ≡ xs
recent_le r s [] h e = refl
recent_le r s (x ∷ xs) h e =
    ground (arith, length-keep-le (λ t. leb s t) xs, ap length e, recent_le r s xs)

full_lem :
    (g : OutboundSenderGuard) (hits : List ℕ)
    → g.rate_limit ≡ length hits
    → g.rate_limit ≤ u32_max
    → leb g.rate_limit (length hits % 2 ^ 32) ≡ true
full_lem g hits full hr = ground arith

volume_below :
    (g : OutboundSenderGuard) (now : ℕ) (hits : List ℕ)
    → length hits < g.volume_cap
    → g.volume_cap ≤ u32_max
    → leb g.volume_cap (length (recent (now - g.volume_window_ms) hits) % 2 ^ 32) ≡ false
volume_below g now hits h cap =
    ground (arith, length-keep-le (λ t. leb (now - g.volume_window_ms) t) hits)

hint_lem :
    (g : OutboundSenderGuard) (now oldest : ℕ) (hits : List ℕ)
    → oldest ≤ now
    → now < oldest + g.rate_window_ms
    → oldest + g.rate_window_ms < 2 ^ 64
    → throttle (max (retry_after g.rate_window_ms now (oldest ∷ hits)) 1) reason_rate
      ≡ throttle (oldest + g.rate_window_ms - now) reason_rate
unfolding retry_after
hint_lem g now oldest hits h₁ h₂ h₃ = ap (λ r. throttle r reason_rate) (omega arith)

-- At the rate limit, with `hits` in the window.
rate_full :
    (g : OutboundSenderGuard) (now : ℕ) (st : SenderState) (hits : List ℕ)
    → recent (now - g.rate_window_ms) st.rate_hits ≡ hits
    → ltb now st.backoff_until ≡ false
    → leb g.volume_cap (length (recent (now - g.volume_window_ms) st.volume_hits) % 2 ^ 32) ≡ false
    → leb g.rate_limit (length hits % 2 ^ 32) ≡ true
    → decide_send g now st ≡ (
      throttle (max (retry_after g.rate_window_ms now hits) 1) reason_rate,
      record st {
        volume_hits = recent (now - g.volume_window_ms) st.volume_hits;
        rate_hits = hits;
      },
    )
unfolding decide_send
rate_full g now st hits e b v r = rw (b, v, e, r) refl

-- The hint of a deferral comes one millisecond too early: a sender at the rate limit whose hits are
-- all in the window and not before the oldest one, and who waits for as long as the hint says, is
-- deferred again, for the window still holds its oldest entry.
pub retry_too_early :
    (g : OutboundSenderGuard) (now oldest : ℕ) (hits : List ℕ) (st : SenderState)
    → st.rate_hits ≡ oldest ∷ hits
    → recent oldest (oldest ∷ hits) ≡ oldest ∷ hits
    → g.rate_limit ≡ length (oldest ∷ hits)
    → g.rate_limit ≤ u32_max
    → length st.volume_hits < g.volume_cap
    → g.volume_cap ≤ u32_max
    → st.backoff_until ≤ now
    → oldest ≤ now
    → now < oldest + g.rate_window_ms
    → oldest + g.rate_window_ms < 2 ^ 64
    → ((decide_send g now st).0 ≡ throttle (oldest + g.rate_window_ms - now) reason_rate)
      × (is_allow (decide_send g (oldest + g.rate_window_ms) (decide_send g now st).1).0 ≡ false)
unfolding is_allow
retry_too_early g now oldest hits st e kept full hr hv cap hb h₁ h₂ h₃ =
    let same = recent_le (now - g.rate_window_ms) oldest (oldest ∷ hits) (omega arith) kept in
    let same' =
      recent_le (oldest + g.rate_window_ms - g.rate_window_ms) oldest (oldest ∷ hits) (omega arith)
        kept in
    let first =
      rate_full g now st (oldest ∷ hits) (rw e same) (ground arith)
        (volume_below g now st.volume_hits hv cap) (full_lem g (oldest ∷ hits) full hr) in
    let st₁ = (decide_send g now st).1 in
    let second =
      rate_full g (oldest + g.rate_window_ms) st₁ (oldest ∷ hits) (rw first same')
        (rw first (ground arith))
        (volume_below g (oldest + g.rate_window_ms) st₁.volume_hits
          (rw first (
            omega
              (arith, hv, length-keep-le (λ t. leb (now - g.volume_window_ms) t) st.volume_hits)))
          cap)
        (full_lem g (oldest ∷ hits) full hr) in
    (rw first (hint_lem g now oldest hits h₁ h₂ h₃), rw second refl)
