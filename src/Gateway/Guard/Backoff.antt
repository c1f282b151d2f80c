-- ===== src/Gateway/Guard/Backoff.antt =====
-- What a delivery outcome does to the sender, and who is refused.
use vulos_relay.Base.{
  ℕ, ◌+◌, ◌-◌, ◌<◌, ◌≡◌, ◌≢◌, refl, min, Bool, true, false, Bytes, bytes_eq, arith, beq_self,
  beq_ne, ltb, if◌then◌else◌,
}
use vulos_relay.Base.Dict.{insert, get-insert}
use vulos_relay.Base.Words.{u32_max, sat_add, sat_mul}
use vulos_relay.Gateway.Guard.{
  OutboundSenderGuard, SenderState, throttle, refuse, reason_denied, reason_backoff,
  is_authenticated, sender, decide_send, authorize_send, backoff_factor, report_outcome, strikes,
  one_more,
}

-- An account that is blank or not on the allow-list is refused and leaves no trace; without an
-- allow-list every account is.
unauthenticated_refused :
    (g : OutboundSenderGuard) (now : ℕ) (account : Bytes)
    → is_authenticated g account ≡ false
    → authorize_send g now account ≡ (refuse reason_denied, g)
unfolding authorize_send
unauthenticated_refused g now account h = rw h refl

pub sender-insert :
    (g : OutboundSenderGuard) (account other : Bytes) (st : SenderState)
    → sender (record g { state = insert g.state account st }) other
      ≡ (if bytes_eq.beq account other then st else sender g other)
unfolding sender
sender-insert g account other st = rw (get-insert g.state account other st) ground arith

-- The entry after a failed delivery.
failed_sender :
    (g : OutboundSenderGuard) (now : ℕ) (account : Bytes)
    → sender (report_outcome g now account false) account ≡ record (sender g account) {
      strikes = one_more (sender g account).strikes;
      backoff_until = sat_add now (
          sat_mul g.backoff_base_ms
            (backoff_factor (min (one_more (sender g account).strikes - 1) g.backoff_max_shift)));
    }
unfolding report_outcome
failed_sender g now account = rw (sender-insert g account account) (rw (beq_self account) refl)

one_more-pred : (n : ℕ) → n < u32_max → one_more n - 1 ≡ n
one_more-pred n h = ground arith

until_lem : (a b : ℕ) → a < b → ltb a b ≡ true
until_lem a b h = ground arith

one_more_lem : (n : ℕ) → n < u32_max → one_more n ≡ n + 1
one_more_lem n h = ground arith

still_authenticated :
    (g : OutboundSenderGuard) (now : ℕ) (account : Bytes)
    → is_authenticated (report_outcome g now account false) account ≡ is_authenticated g account
unfolding is_authenticated report_outcome
still_authenticated g now account = refl

failed_throttle :
    (g : OutboundSenderGuard) (now later : ℕ) (account : Bytes)
    → is_authenticated g account ≡ true
    → strikes g account < u32_max
    → later
      < sat_add now
          (sat_mul g.backoff_base_ms (backoff_factor (min (strikes g account) g.backoff_max_shift)))
    → (authorize_send (report_outcome g now account false) later account).0
      ≡ throttle
          (sat_add now (
              sat_mul g.backoff_base_ms
                (backoff_factor (min (strikes g account) g.backoff_max_shift)))
            - later)
          reason_backoff
unfolding authorize_send decide_send strikes
failed_throttle g now later account h few soon =
    rw
      (
        still_authenticated g now account,
        h,
        failed_sender g now account,
        one_more-pred (sender g account).strikes few,
        until_lem later
            (sat_add now (
              sat_mul g.backoff_base_ms
                (backoff_factor (min (sender g account).strikes g.backoff_max_shift))))
            soon,
      )
      refl

-- After a failed delivery the account has one strike more, and until the backoff of the strikes it
-- had before is over, each of its attempts is deferred for what is left of it.
failure_backs_off :
    (g : OutboundSenderGuard) (now later : ℕ) (account : Bytes)
    → is_authenticated g account ≡ true
    → strikes g account < u32_max
    → later
      < sat_add now
          (sat_mul g.backoff_base_ms (backoff_factor (min (strikes g account) g.backoff_max_shift)))
    → (strikes (report_outcome g now account false) account ≡ strikes g account + 1)
      × ((authorize_send (report_outcome g now account false) later account).0
          ≡ throttle
              (sat_add now (
                  sat_mul g.backoff_base_ms
                    (backoff_factor (min (strikes g account) g.backoff_max_shift)))
                - later)
              reason_backoff)
unfolding strikes
failure_backs_off g now later account h few soon = (
  rw (strikes, failed_sender g now account) (one_more_lem (sender g account).strikes few),
  failed_throttle g now later account h few soon,
)

-- An outcome of one account changes the entry of no other.
outcome_is_local :
    (g : OutboundSenderGuard) (now : ℕ) (account other : Bytes) (delivered : Bool)
    → account ≢ other
    → sender (report_outcome g now account delivered) other ≡ sender g other
unfolding report_outcome
outcome_is_local g now account other true h =
    rw (sender-insert g account other) (rw (beq_ne account other h) refl)
outcome_is_local g now account other false h =
    rw (sender-insert g account other) (rw (beq_ne account other h) refl)
