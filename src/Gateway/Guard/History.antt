-- ===== src/Gateway/Guard/History.antt =====
-- The sliding windows of the guard over a history of calls.
use vulos_relay.Base.{
  ℕ, ◌-◌, ◌≤◌, ◌≡◌, refl, ◌∙◌, sym, subst, Bool, true, false, Bool-cases, inl, inr, List, [], ◌∷◌,
  ◌++◌, append_assoc, append-nil, Bytes, bytes_eq, arith, bytes_beq_iff, if◌then◌else◌, length,
}
use vulos_relay.Base.Dict.{get}
use vulos_relay.Base.Words.{u32_max}
use vulos_relay.Gateway.Guard.{
  OutboundSenderGuard, SenderState, is_allow, recent, sender, is_authenticated, decide_send,
  authorize_send, report_outcome,
}
use vulos_relay.Gateway.Guard.Windows.{Follows, decide_send-Follows, Follows-later, Tracks-bound}
use vulos_relay.Gateway.Guard.Backoff.{sender-insert}

-- The calls on the guard.
pub data Call : Type 0 where
  authorizes : (account : Bytes) → Call
  reports : (account : Bytes) (delivered : Bool) → Call

unfoldable pub after : OutboundSenderGuard → ℕ → Call → OutboundSenderGuard
after g now (authorizes account) = (authorize_send g now account).1
after g now (reports account delivered) = report_outcome g now account delivered

unfoldable pub run : OutboundSenderGuard → List (ℕ × Call) → OutboundSenderGuard
run g [] = g
run g ((now, c) ∷ calls) = run (after g now c) calls

-- Whether a call lets a message of the account through.
unfoldable pub sends : OutboundSenderGuard → ℕ → Call → Bytes → Bool
sends g now (authorizes account) a =
    if bytes_eq.beq account a then is_allow (authorize_send g now account).0 else false
sends g now (reports account delivered) a = false

-- The times at which a history lets the account's messages through.
unfoldable pub sent : OutboundSenderGuard → List (ℕ × Call) → Bytes → List ℕ
sent g [] a = []
sent g ((now, c) ∷ calls) a =
    let rest = sent (after g now c) calls a in if sends g now c a then now ∷ rest else rest

-- The calls come at times that do not decrease from `t` on and end by `last`.
abbrev pub IsOrdered : ℕ → List (ℕ × Call) → ℕ → Type 0
IsOrdered t [] last = t ≤ last
IsOrdered t ((now, c) ∷ calls) last = (t ≤ now) × IsOrdered now calls last

abbrev Step : OutboundSenderGuard → OutboundSenderGuard → ℕ → Bytes → List ℕ → Type 0
Step g g' now a log =
    (g'.rate_limit ≡ g.rate_limit)
    × (g'.volume_cap ≡ g.volume_cap)
    × (g'.rate_window_ms ≡ g.rate_window_ms)
    × (g'.volume_window_ms ≡ g.volume_window_ms)
    × Follows g now (sender g' a) log

Follows-kept :
    (g : OutboundSenderGuard) (t now : ℕ) (account a : Bytes) (log : List ℕ)
    → t ≤ now
    → Follows g t (sender g a) log
    → Follows g now
        (sender g a)
        (if (if bytes_eq.beq account a then false else false) then log ++ (now ∷ []) else log)
Follows-kept g t now account a log h p = elim (Bool-cases (bytes_eq.beq account a)) [
  | inl e ↦ rw e (Follows-later g t now (sender g a) log h p)
  | inr e ↦ rw e (Follows-later g t now (sender g a) log h p)
]

-- An entry put in the place of the account's, with the same hits.
report-Follows :
    (g : OutboundSenderGuard) (t now : ℕ) (account a : Bytes) (log : List ℕ) (st : SenderState)
    → t ≤ now
    → st.rate_hits ≡ (sender g account).rate_hits
    → st.volume_hits ≡ (sender g account).volume_hits
    → Follows g t (sender g a) log
    → Follows g now (if bytes_eq.beq account a then st else sender g a) log
report-Follows g t now account a log st h er ev p = elim (Bool-cases (bytes_eq.beq account a)) [
  | inr e ↦ rw e (Follows-later g t now (sender g a) log h p)
  | inl e ↦
      rw (e, er, ev, (bytes_beq_iff account a).0 e) (Follows-later g t now (sender g a) log h p)
]

after-Step :
    (g : OutboundSenderGuard) (t now : ℕ) (c : Call) (a : Bytes) (log : List ℕ)
    → g.rate_limit ≤ u32_max
    → g.volume_cap ≤ u32_max
    → t ≤ now
    → Follows g t (sender g a) log
    → Step g (after g now c) now a (if sends g now c a then log ++ (now ∷ []) else log)
unfolding after sends report_outcome authorize_send is_allow
after-Step g t now (authorizes account) a log hr hv h p =
    elim (Bool-cases (is_authenticated g account)) [
      | inr q ↦
          rw (after, authorize_send, q)
            (refl, refl, refl, refl, Follows-kept g t now account a log h p)
      | inl q ↦ elim (Bool-cases (bytes_eq.beq account a)) [
        | inr e ↦
            rw (after, authorize_send, q, e)
              (
                refl,
                refl,
                refl,
                refl,
                rw (sender-insert g account a (decide_send g now (sender g account)).1)
                    (rw e (Follows-later g t now (sender g a) log h p)),
              )
        | inl e ↦
            rw (after, authorize_send, q, e)
              (
                refl,
                refl,
                refl,
                refl,
                rw (sender-insert g account a (decide_send g now (sender g account)).1) (
                    rw e (
                      decide_send-Follows g t now (sender g account) log hr hv h (
                        subst (λ x. Follows g t (sender g x) log)
                          (sym ((bytes_beq_iff account a).0 e)) p))),
              )
      ]
    ]
after-Step g t now (reports account true) a log hr hv h p = (
  refl,
  refl,
  refl,
  refl,
  rw (sender-insert g account a) (report-Follows g t now account a log _ h refl refl p),
)
after-Step g t now (reports account false) a log hr hv h p = (
  refl,
  refl,
  refl,
  refl,
  rw (sender-insert g account a) (report-Follows g t now account a log _ h refl refl p),
)

Step-trans :
    (g g₁ g₂ : OutboundSenderGuard) (now last : ℕ) (a : Bytes) (log₁ log₂ log₃ : List ℕ)
    → log₂ ≡ log₃
    → Step g g₁ now a log₁
    → Step g₁ g₂ last a log₂
    → Step g g₂ last a log₃
Step-trans g g₁ g₂ now last a log₁ log₂ log₃ e s s' = (
  s'.0 ∙ s.0,
  s'.1 ∙ s.1,
  s'.2 ∙ s.2,
  s'.3 ∙ s.3,
  rw (sym e, sym s.0, sym s.1, sym s.2, sym s.3) s'.4,
)

logged-append :
    (b : Bool) (now : ℕ) (log rest : List ℕ)
    → (if b then log ++ (now ∷ []) else log) ++ rest ≡ log ++ (if b then now ∷ rest else rest)
logged-append true now log rest = append_assoc log (now ∷ []) rest
logged-append false now log rest = refl

run-Follows :
    (g : OutboundSenderGuard) (t last : ℕ) (calls : List (ℕ × Call)) (a : Bytes) (log : List ℕ)
    → g.rate_limit ≤ u32_max
    → g.volume_cap ≤ u32_max
    → IsOrdered t calls last
    → Follows g t (sender g a) log
    → Step g (run g calls) last a (log ++ sent g calls a)
unfolding run sent after
run-Follows g t last [] a log hr hv h p =
    (refl, refl, refl, refl, rw (append-nil log) (Follows-later g t last (sender g a) log h p))
run-Follows g t last ((now, c) ∷ calls) a log hr hv h p =
    let s = after-Step g t now c a log hr hv h.0 p in
    let log₁ = if sends g now c a then log ++ (now ∷ []) else log in
    let ih =
      run-Follows (after g now c) now last calls a log₁ (rw s.0 hr) (rw s.1 hv) h.1
        (rw (s.0, s.1, s.2, s.3) s.4) in
    Step-trans g (after g now c) (run (after g now c) calls) now last a log₁
      (log₁ ++ sent (after g now c) calls a)
      (log
        ++ (if sends g now c a
            then now ∷ sent (after g now c) calls a
            else sent (after g now c) calls a))
      (logged-append (sends g now c a) now log (sent (after g now c) calls a)) s ih

-- In a history from a guard without entries, no account gets more messages through within the rate
-- window than the rate limit, nor more within the volume window than the volume cap, whatever the
-- other accounts do and whatever outcomes are reported. The clock does not go back, and the limits
-- are 32-bit words.
pub sends_bounded :
    (g : OutboundSenderGuard) (last : ℕ) (calls : List (ℕ × Call)) (a : Bytes)
    → g.rate_limit ≤ u32_max
    → g.volume_cap ≤ u32_max
    → g.state ≡ []
    → IsOrdered 0 calls last
    → (length (recent (last - g.rate_window_ms) (sent g calls a)) ≤ g.rate_limit)
      × (length (recent (last - g.volume_window_ms) (sent g calls a)) ≤ g.volume_cap)
unfolding sender get
sends_bounded g last calls a hr hv none_yet h =
    let p =
      (run-Follows g 0 last calls a [] hr hv h
        (rw none_yet ((λ s hs. refl, omega arith), (λ s hs. refl, omega arith)))).4 in
    (
      Tracks-bound g.rate_window_ms g.rate_limit last (sender (run g calls) a).rate_hits
          (sent g calls a) p.0,
      Tracks-bound g.volume_window_ms g.volume_cap last (sender (run g calls) a).volume_hits
          (sent g calls a) p.1,
    )
