-- ===== src/Gateway/Guard/Windows.antt =====
-- One call's tests against the sliding windows, and what the windows remember.
use vulos_relay.Base.{
  ℕ, ◌-◌, ◌<◌, ◌≤◌, ◌≡◌, refl, ap, ◌∙◌, sym, ◌%◌, ◌^◌, Bool-cases, inl, inr, List, [], ◌∷◌, ◌++◌,
  bytes_eq, arith, ltb, leb, if◌then◌else◌, length, length-append, length-keep-le,
}
use vulos_relay.Base.Words.{u32_max}
use vulos_relay.Gateway.Guard.{
  OutboundSenderGuard, SenderState, SenderVerdict, is_allow, recent, decide_send,
}

-- `hits` has at most `n` entries, and from `t - w` on it holds the same times as `log`.
abbrev pub Tracks : ℕ → ℕ → ℕ → List ℕ → List ℕ → Type 0
Tracks w n t hits log = ((s : ℕ) → t - w ≤ s → recent s hits ≡ recent s log) × (length hits ≤ n)

recent-recent : (r s : ℕ) (xs : List ℕ) → r ≤ s → recent s (recent r xs) ≡ recent s xs
recent-recent r s [] h = refl
recent-recent r s (x ∷ xs) h = ground (arith, recent-recent r s xs h)

recent-append : (s : ℕ) (xs ys : List ℕ) → recent s (xs ++ ys) ≡ recent s xs ++ recent s ys
recent-append s [] ys = refl
recent-append s (x ∷ xs) ys = ground (arith, recent-append s xs ys)

Tracks-later :
    (w n t now : ℕ) (hits log : List ℕ) → t ≤ now → Tracks w n t hits log → Tracks w n now hits log
Tracks-later w n t now hits log h p = (λ s hs. p.0 s (omega arith), p.1)

Tracks-retain :
    (w n t now : ℕ) (hits log : List ℕ)
    → t ≤ now
    → Tracks w n t hits log
    → Tracks w n now (recent (now - w) hits) log
Tracks-retain w n t now hits log h p = (
  λ s hs. recent-recent (now - w) s hits hs ∙ p.0 s (omega arith),
  omega (arith, length-keep-le (λ x. leb (now - w) x) hits, p.1),
)

Tracks-push :
    (w n now : ℕ) (hits log : List ℕ)
    → length hits < n
    → Tracks w n now hits log
    → Tracks w n now (hits ++ (now ∷ [])) (log ++ (now ∷ []))
Tracks-push w n now hits log h p = (
  λ s hs.
      recent-append s hits (now ∷ [])
      ∙ ap (λ xs. xs ++ recent s (now ∷ [])) (p.0 s hs)
      ∙ sym (recent-append s log (now ∷ [])),
  omega (arith, length-append hits (now ∷ []), h),
)

-- Both windows of an entry follow the times at which the sender was let through.
abbrev pub Follows : OutboundSenderGuard → ℕ → SenderState → List ℕ → Type 0
Follows g t st log =
    Tracks g.rate_window_ms g.rate_limit t st.rate_hits log
    × Tracks g.volume_window_ms g.volume_cap t st.volume_hits log

abbrev pub logged : SenderVerdict → ℕ → List ℕ → List ℕ
logged v now log = if is_allow v then log ++ (now ∷ []) else log

pub decide_send-Follows :
    (g : OutboundSenderGuard) (t now : ℕ) (st : SenderState) (log : List ℕ)
    → g.rate_limit ≤ u32_max
    → g.volume_cap ≤ u32_max
    → t ≤ now
    → Follows g t st log
    → Follows g now (decide_send g now st).1 (logged (decide_send g now st).0 now log)
unfolding decide_send is_allow
decide_send-Follows g t now st log hr hv h p =
    let pr = Tracks-later g.rate_window_ms g.rate_limit t now st.rate_hits log h p.0 in
    let pv = Tracks-later g.volume_window_ms g.volume_cap t now st.volume_hits log h p.1 in
    let qr = Tracks-retain g.rate_window_ms g.rate_limit t now st.rate_hits log h p.0 in
    let qv = Tracks-retain g.volume_window_ms g.volume_cap t now st.volume_hits log h p.1 in
    elim (Bool-cases (ltb now st.backoff_until)) [
      | inl b ↦ rw b (pr, pv)
      | inr b ↦
          elim (Bool-cases (
            leb g.volume_cap
              (length (recent (now - g.volume_window_ms) st.volume_hits) % 2 ^ 32))) [
                | inl v ↦ rw (b, v) (pr, qv)
                | inr v ↦
                    elim (Bool-cases (
                      leb g.rate_limit
                        (length (recent (now - g.rate_window_ms) st.rate_hits) % 2 ^ 32))) [
                          | inl r ↦ rw (b, v, r) (qr, qv)
                          | inr r ↦
                              rw (b, v, r)
                                (
                                  Tracks-push g.rate_window_ms g.rate_limit now
                                      (recent (now - g.rate_window_ms) st.rate_hits) log
                                      (ground (arith, qr.1)) qr,
                                  Tracks-push g.volume_window_ms g.volume_cap now
                                      (recent (now - g.volume_window_ms) st.volume_hits) log
                                      (ground (arith, qv.1)) qv,
                                )
                        ]
              ]
    ]

pub Follows-later :
    (g : OutboundSenderGuard) (t now : ℕ) (st : SenderState) (log : List ℕ)
    → t ≤ now
    → Follows g t st log
    → Follows g now st log
Follows-later g t now st log h p = (
  Tracks-later g.rate_window_ms g.rate_limit t now st.rate_hits log h p.0,
  Tracks-later g.volume_window_ms g.volume_cap t now st.volume_hits log h p.1,
)

pub Tracks-bound :
    (w n t : ℕ) (hits log : List ℕ) → Tracks w n t hits log → length (recent (t - w) log) ≤ n
Tracks-bound w n t hits log p =
    rw (sym (p.0 (t - w) (omega arith)))
      (omega (arith, length-keep-le (λ x. leb (t - w) x) hits, p.1))
