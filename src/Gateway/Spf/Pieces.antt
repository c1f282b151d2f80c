-- ===== src/Gateway/Spf/Pieces.antt =====
-- What the pieces of a term give when it is read in crates/gateway/src/spf.rs.
use vulos_relay.Base.{
  ℕ, ◌≤◌, ◌==◌, ◌≡◌, ◌≢◌, false, Bool-cases, Option, none, some, Option-cases, inl, inr, [], ◌∷◌,
  arith, Bytes, codes, ltb, if◌then◌else◌,
}
use vulos_relay.Base.Chain.{◌>>=◌}
use vulos_relay.Base.Text.{is_empty, break, split_once, strip_prefix, parse_u8}
use vulos_relay.Gateway.Spf.Record.{
  Mechanism, all, include, a, mx, ip4, ip6, ptr, exists, at_most, optional, parse_cidr, parse_cidrs,
  parse_dual_cidr, after_colon, parse_domain_spec,
}

-- The lengths fit their family, and a name is not empty.
abbrev pub IsNamed : Option Bytes → Type 0
IsNamed none = Unit
IsNamed (some d) = d ≢ []

abbrev pub IsWellformed : Mechanism → Type 0
IsWellformed all = Unit
IsWellformed (include d) = d ≢ []
IsWellformed (a domain cidr4 cidr6) = IsNamed domain × (cidr4 ≤ 32) × (cidr6 ≤ 128)
IsWellformed (mx domain cidr4 cidr6) = IsNamed domain × (cidr4 ≤ 32) × (cidr6 ≤ 128)
IsWellformed (ip4 net cidr) = cidr ≤ 32
IsWellformed (ip6 net cidr) = cidr ≤ 128
IsWellformed ptr = Unit
IsWellformed (exists d) = d ≢ []

abbrev pub Gives : {A : Type 0} → (A → Type 0) → Option A → Type 0
Gives P none = Unit
Gives P (some x) = P x

pub Gives-bind :
    {A B : Type 0} (P : A → Type 0) (Q : B → Type 0) (o : Option A) (f : A → Option B)
    → Gives P o
    → ((x : A) → P x → Gives Q (f x))
    → Gives Q (o >>= f)
Gives-bind P Q none f h k = tt
Gives-bind P Q (some x) f h k = k x h

pub at_most-Gives : (bound : ℕ) (o : Option ℕ) → Gives (λ n. n ≤ bound) (at_most bound o)
at_most-Gives bound none = tt
at_most-Gives bound (some n) = elim (Bool-cases (ltb bound n)) [
  | inl q ↦ rw q tt
  | inr q ↦ rw q (ground (arith, q))
]

abbrev pub IsDual : ℕ × ℕ → Type 0
IsDual (c4, c6) = (c4 ≤ 32) × (c6 ≤ 128)

pub parse_cidrs-Gives : (rest : Bytes) → Gives IsDual (parse_cidrs rest)
unfolding parse_cidrs
parse_cidrs-Gives rest = elim (Option-cases (split_once 47 rest)) [
  | inl q ↦
      rw (parse_cidrs, q)
        (Gives-bind (λ n. n ≤ 32) IsDual (at_most 32 (parse_u8 rest)) _
          (at_most-Gives 32 (parse_u8 rest)) (λ c4 h. (h, omega arith)))
  | inr ((first, second), q) ↦
      rw (parse_cidrs, q)
        (Gives-bind (λ n. n ≤ 32) IsDual (at_most 32 (parse_u8 first)) _
          (at_most-Gives 32 (parse_u8 first))
          (λ c4 h.
            Gives-bind (λ n. n ≤ 128) IsDual (at_most 128 (parse_u8 second)) _
              (at_most-Gives 128 (parse_u8 second)) (λ c6 h₁. (h, h₁))))
]

pub anything : {A : Type 0} (o : Option A) → Gives (λ x. Unit {0}) o
anything none = tt
anything (some x) = tt

pub parse_dual_cidr-Gives : (cidr_part : Bytes) → Gives IsDual (parse_dual_cidr cidr_part)
unfolding parse_dual_cidr
parse_dual_cidr-Gives cidr_part = elim (Bool-cases (is_empty cidr_part)) [
  | inl q ↦ rw (parse_dual_cidr, q) (omega arith, omega arith)
  | inr q ↦ elim (Option-cases (strip_prefix (codes "//") cidr_part)) [
    | inl e ↦
        rw (parse_dual_cidr, q, e)
          (Gives-bind (λ x. Unit {0}) IsDual (strip_prefix (codes "/") cidr_part) parse_cidrs
            (anything (strip_prefix (codes "/") cidr_part)) (λ rest h. parse_cidrs-Gives rest))
    | inr (v6only, e) ↦
        rw (parse_dual_cidr, q, e)
          (Gives-bind (λ n. n ≤ 128) IsDual (at_most 128 (parse_u8 v6only)) _
            (at_most-Gives 128 (parse_u8 v6only)) (λ v h. (omega arith, h)))
  ]
]

pub nonempty : (d : Bytes) → is_empty d ≡ false → d ≢ []
unfolding is_empty
nonempty [] q = λ e. cc q
nonempty (c ∷ d) q = λ e. cc e

pub after_colon-Gives : (rest : Bytes) → Gives (λ d. d ≢ []) (after_colon rest)
unfolding after_colon
after_colon-Gives rest =
    Gives-bind (λ x. Unit {0}) (λ d. d ≢ []) (strip_prefix (codes ":") rest) _
      (anything (strip_prefix (codes ":") rest))
      (λ v h. elim (Bool-cases (is_empty v)) [ inl q ↦ rw q tt | inr q ↦ rw q (nonempty v q) ])

pub optional-Gives : (o : Option Bytes) → Gives (λ d. d ≢ []) o → Gives IsNamed (optional o)
optional-Gives none h = tt
optional-Gives (some d) h = h

-- The predicate on what `parse_domain_spec` returns.
abbrev pub IsSpec : Option Bytes × ℕ × ℕ → Type 0
IsSpec (domain, c4, c6) = IsNamed domain × (c4 ≤ 32) × (c6 ≤ 128)

pub domain-Gives :
    (part : Bytes)
    → Gives IsNamed (if is_empty part then some none else optional (after_colon part))
domain-Gives part = elim (Bool-cases (is_empty part)) [
  | inl q ↦ rw q tt
  | inr q ↦ rw q (optional-Gives (after_colon part) (after_colon-Gives part))
]

pub parse_domain_spec-Gives : (rest : Bytes) → Gives IsSpec (parse_domain_spec rest)
unfolding parse_domain_spec
parse_domain_spec-Gives rest =
    let (part, cidr_part) = break (λ c. c == 47) rest in
    Gives-bind IsNamed IsSpec _ _ (domain-Gives part) (λ domain h.
      Gives-bind IsDual IsSpec (parse_dual_cidr cidr_part) _ (parse_dual_cidr-Gives cidr_part)
        (λ d h₁. (h, h₁.0, h₁.1)))

pub parse_cidr-Gives :
    (width : ℕ) (parse : Bytes → Option ℕ) (v : Bytes)
    → Gives (λ r. r.1 ≤ width) (parse_cidr width parse v)
parse_cidr-Gives width parse v = elim (Option-cases (split_once 47 v)) [
  | inl q ↦
      rw (parse_cidr, q)
        (Gives-bind (λ x. Unit {0}) (λ r. r.1 ≤ width) (parse v) _ (anything (parse v))
          (λ ip h. omega arith))
  | inr ((addr, c), q) ↦
      rw (parse_cidr, q)
        (Gives-bind (λ n. n ≤ width) (λ r. r.1 ≤ width) (at_most width (parse_u8 c)) _
          (at_most-Gives width (parse_u8 c))
          (λ cidr h.
            Gives-bind (λ x. Unit {0}) (λ r. r.1 ≤ width) (parse addr) _ (anything (parse addr))
              (λ ip h₁. h)))
]
