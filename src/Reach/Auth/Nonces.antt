-- ===== src/Reach/Auth/Nonces.antt =====
-- Nonces are used once, and the table of pending nonces is bounded.
use vulos_relay.Base.{
  ◌≤◌, ◌<◌, ◌≡◌, ◌≢◌, refl, ap, false, Bool-cases, inl, inr, List, [], ◌∷◌, ◌++◌, Bytes, bytes_eq,
  bytes_beq_iff, beq_self, arith, length, length-append, any-append, All, leb, if◌then◌else◌,
}
use vulos_relay.Reach.Auth.{
  NonceState, no_nonces, issue, evict, consume, is_in, without, max_pending_nonces,
}

pub data Call : Type 0 where
  issues : (drawn : Bytes) → Call
  consumes : (nonce : Bytes) → Call

unfoldable pub after : NonceState → Call → NonceState
after st (issues drawn) = issue st drawn
after st (consumes nonce) = (consume st nonce).1

unfoldable pub run : NonceState → List Call → NonceState
run st [] = st
run st (c ∷ cs) = run (after st c) cs

-- `xs` is `ys` with some entries left out.
data IsPart : List Bytes → List Bytes → Type 0 where
  done : IsPart [] []
  kept : (x : Bytes) {xs ys : List Bytes} → IsPart xs ys → IsPart (x ∷ xs) (x ∷ ys)
  left_out : (y : Bytes) {xs ys : List Bytes} → IsPart xs ys → IsPart xs (y ∷ ys)

length-IsPart : {xs ys : List Bytes} → IsPart xs ys → length xs ≤ length ys
length-IsPart done = omega arith
length-IsPart (kept x p) = omega (arith, length-IsPart p)
length-IsPart (left_out y p) = omega (arith, length-IsPart p)

without-IsPart : (n : Bytes) {xs ys : List Bytes} → IsPart xs ys → IsPart (without n xs) ys
without-IsPart n done = done
without-IsPart n (kept x p) = elim (Bool-cases (bytes_eq.beq x n)) [
  | inl e ↦ rw e (left_out x (without-IsPart n p))
  | inr e ↦ rw e (kept x (without-IsPart n p))
]
without-IsPart n (left_out y p) = left_out y (without-IsPart n p)

-- The oldest entry leaves both.
evict-IsPart : (n : Bytes) {xs ys : List Bytes} → IsPart xs (n ∷ ys) → IsPart (without n xs) ys
evict-IsPart n (kept m p) = rw (beq_self n) (without-IsPart n p)
evict-IsPart n (left_out y p) = without-IsPart n p

append_one-IsPart :
    (n : Bytes) {xs ys : List Bytes} → IsPart xs ys → IsPart (xs ++ (n ∷ [])) (ys ++ (n ∷ []))
append_one-IsPart n done = kept n done
append_one-IsPart n (kept x p) = kept x (append_one-IsPart n p)
append_one-IsPart n (left_out y p) = left_out y (append_one-IsPart n p)

order_grows-IsPart : (n : Bytes) {xs ys : List Bytes} → IsPart xs ys → IsPart xs (ys ++ (n ∷ []))
order_grows-IsPart n done = left_out n done
order_grows-IsPart n (kept x p) = kept x (order_grows-IsPart n p)
order_grows-IsPart n (left_out y p) = left_out y (order_grows-IsPart n p)

-- The pending nonces are some of those in order, which fit the capacity.
abbrev IsValid : NonceState → Type 0
IsValid st = IsPart st.pending st.order × (length st.order ≤ max_pending_nonces)

push : NonceState → Bytes → NonceState
push st drawn = record {
  pending = if is_in drawn st.pending then st.pending else st.pending ++ (drawn ∷ []);
  order = st.order ++ (drawn ∷ []);
}

push-IsValid :
    (st : NonceState) (drawn : Bytes)
    → IsPart st.pending st.order
    → length st.order < max_pending_nonces
    → IsValid (push st drawn)
unfolding push
push-IsValid st drawn p room = elim (Bool-cases (is_in drawn st.pending)) [
  | inl e ↦ rw e (order_grows-IsPart drawn p, omega (arith, length-append st.order (drawn ∷ [])))
  | inr e ↦ rw e (append_one-IsPart drawn p, omega (arith, length-append st.order (drawn ∷ [])))
]

issue-IsValid : (st : NonceState) (drawn : Bytes) → IsValid st → IsValid (issue st drawn)
unfolding issue push
issue-IsValid st drawn v = elim (Bool-cases (leb max_pending_nonces (length st.order))) [
  | inr room ↦ rw room (push-IsValid st drawn v.0 (ground arith))
  | inl full ↦ rw full (evicted st.order refl v)
]
  where
    evicted :
        (order : List Bytes)
        → order ≡ st.order
        → IsPart st.pending order × (length order ≤ max_pending_nonces)
        → IsValid (push (evict st order) drawn)
    evicted [] e w = push-IsValid st drawn v.0 (omega (arith, ap length e))
    evicted (o ∷ order) e w = push-IsValid _ drawn (evict-IsPart o w.0) (omega arith)

run-IsValid : (cs : List Call) (st : NonceState) → IsValid st → IsValid (run st cs)
unfolding run after consume
run-IsValid [] st v = v
run-IsValid (issues drawn ∷ cs) st v = run-IsValid cs _ (issue-IsValid st drawn v)
run-IsValid (consumes nonce ∷ cs) st v = run-IsValid cs _ (without-IsPart nonce v.0, v.1)

-- After any history of issued and consumed nonces, at most 10,000 are pending and at most 10,000 are
-- kept in order.
run_bounded :
    (cs : List Call)
    → (length (run no_nonces cs).pending ≤ max_pending_nonces)
      × (length (run no_nonces cs).order ≤ max_pending_nonces)
run_bounded cs = let v = run-IsValid cs no_nonces start in (omega (arith, length-IsPart v.0), v.1)
  where
    start : IsValid no_nonces
    start = unfold no_nonces in (done, omega arith)

is_in-without :
    (n m : Bytes) (xs : List Bytes) → is_in n xs ≡ false → is_in n (without m xs) ≡ false
is_in-without n m [] h = refl
is_in-without n m (x ∷ xs) h = ground (arith, is_in-without n m xs)

is_in-without_self : (n : Bytes) (xs : List Bytes) → is_in n (without n xs) ≡ false
is_in-without_self n [] = refl
is_in-without_self n (x ∷ xs) = ground (arith, is_in-without_self n xs)

is_in-append_one :
    (n m : Bytes) (xs : List Bytes) → m ≢ n → is_in n xs ≡ false → is_in n (xs ++ (m ∷ [])) ≡ false
is_in-append_one n m xs ne h =
    ground (arith, any-append (λ x. bytes_eq.beq x n) xs (m ∷ []), bytes_beq_iff m n)

-- The call does not draw this nonce again.
abbrev pub DrawsOther : Bytes → Call → Type 0
DrawsOther n (issues drawn) = drawn ≢ n
DrawsOther n (consumes nonce) = Unit {0}

evict_out :
    (n : Bytes) (st : NonceState) (order : List Bytes)
    → is_in n st.pending ≡ false
    → is_in n (evict st order).pending ≡ false
unfolding evict
evict_out n st [] h = h
evict_out n st (o ∷ order) h = is_in-without n o st.pending h

issue_out :
    (n drawn : Bytes) (st : NonceState)
    → drawn ≢ n
    → is_in n st.pending ≡ false
    → is_in n (issue st drawn).pending ≡ false
unfolding issue
issue_out n drawn st ne h = ground (
  arith,
  evict_out n st st.order h,
  is_in-append_one n drawn st.pending ne,
  is_in-append_one n drawn (evict st st.order).pending ne,
)

run_out :
    (cs : List Call) (n : Bytes) (st : NonceState)
    → All (DrawsOther n) cs
    → is_in n st.pending ≡ false
    → is_in n (run st cs).pending ≡ false
unfolding run after consume
run_out [] n st o h = h
run_out (issues drawn ∷ cs) n st o h = run_out cs n _ o.1 (issue_out n drawn st o.0 h)
run_out (consumes m ∷ cs) n st o h = run_out cs n _ o.1 (is_in-without n m st.pending h)

-- A nonce that was presented once is refused from then on, through any history that does not draw
-- the same nonce again.
pub consume_once :
    (st : NonceState) (n : Bytes) (cs : List Call)
    → All (DrawsOther n) cs
    → (consume (run (consume st n).1 cs) n).0 ≡ false
unfolding consume
consume_once st n cs o = run_out cs n _ o (is_in-without_self n st.pending)
