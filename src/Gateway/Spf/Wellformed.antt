-- ===== src/Gateway/Spf/Wellformed.antt =====
-- What `parse_record` of crates/gateway/src/spf.rs lets through.
use vulos_relay.Base.{
  ◌≤◌, ◌==◌, ◌||◌, subst, ◌≡◌, ◌≢◌, Bool-cases, Option, none, some, Option-cases, inl, inr, List,
  [], ◌∷◌, Bytes, bytes_beq, codes, All,
}
use vulos_relay.Base.Text.{
  to_ascii_lowercase, eq_ignore_ascii_case, is_empty, break, split_whitespace, split_once,
  strip_prefix,
}
use vulos_relay.Gateway.Spf.Address.{parse_ipv4, parse_ipv6}
use vulos_relay.Gateway.Spf.Record.{
  ParsedRecord, parse_cidr, qualified, after_colon, parse_domain_spec, parse_ip4_cidr,
  parse_ip6_cidr, parse_keyword, parse_mechanism, parse_modifier, parse_terms, parse_versioned,
  parse_record,
}
use vulos_relay.Gateway.Spf.Pieces.{
  IsNamed, IsWellformed, Gives, Gives-bind, anything, nonempty, after_colon-Gives, IsSpec,
  parse_domain_spec-Gives, parse_cidr-Gives,
}

parse_keyword-Gives : (keyword rest : Bytes) → Gives IsWellformed (parse_keyword keyword rest)
unfolding parse_keyword parse_ip4_cidr parse_ip6_cidr
parse_keyword-Gives keyword rest =
    let named = after_colon-Gives rest in
    let spec = parse_domain_spec-Gives rest in
    let v = strip_prefix (codes ":") rest in
    elim (Bool-cases (bytes_beq keyword (codes "all"))) [
      | inl q0 ↦ elim (Bool-cases (is_empty rest)) [
        | inl e ↦ rw (parse_keyword, q0, e) tt
        | inr e ↦ rw (parse_keyword, q0, e) tt
      ]
      | inr q0 ↦ elim (Bool-cases (bytes_beq keyword (codes "include"))) [
        | inl q1 ↦
            rw (parse_keyword, q0, q1)
              (Gives-bind (λ d. d ≢ []) IsWellformed (after_colon rest) _ named (λ d h. h))
        | inr q1 ↦ elim (Bool-cases (bytes_beq keyword (codes "exists"))) [
          | inl q2 ↦
              rw (parse_keyword, q0, q1, q2)
                (Gives-bind (λ d. d ≢ []) IsWellformed (after_colon rest) _ named (λ d h. h))
          | inr q2 ↦ elim (Bool-cases (bytes_beq keyword (codes "a"))) [
            | inl q3 ↦
                rw (parse_keyword, q0, q1, q2, q3)
                  (Gives-bind IsSpec IsWellformed (parse_domain_spec rest) _ spec (λ d h. h))
            | inr q3 ↦ elim (Bool-cases (bytes_beq keyword (codes "mx"))) [
              | inl q4 ↦
                  rw (parse_keyword, q0, q1, q2, q3, q4)
                    (Gives-bind IsSpec IsWellformed (parse_domain_spec rest) _ spec (λ d h. h))
              | inr q4 ↦ elim (Bool-cases (bytes_beq keyword (codes "ptr"))) [
                | inl q5 ↦ elim (Bool-cases (is_empty rest)) [
                  | inl e ↦ rw (parse_keyword, q0, q1, q2, q3, q4, q5, e) tt
                  | inr e ↦
                      rw (parse_keyword, q0, q1, q2, q3, q4, q5, e)
                        (Gives-bind (λ d. d ≢ []) IsWellformed (after_colon rest) _ named
                          (λ d h. tt))
                ]
                | inr q5 ↦ elim (Bool-cases (bytes_beq keyword (codes "ip4"))) [
                  | inl q6 ↦
                      rw (parse_keyword, q0, q1, q2, q3, q4, q5, q6)
                        (Gives-bind (λ x. Unit {0}) IsWellformed v _ (anything v)
                          (λ t h.
                            Gives-bind (λ r. r.1 ≤ 32) IsWellformed (parse_cidr 32 parse_ipv4 t) _
                              (parse_cidr-Gives 32 parse_ipv4 t) (λ r h₁. h₁)))
                  | inr q6 ↦ elim (Bool-cases (bytes_beq keyword (codes "ip6"))) [
                    | inl q7 ↦
                        rw (parse_keyword, q0, q1, q2, q3, q4, q5, q6, q7)
                          (Gives-bind (λ x. Unit {0}) IsWellformed v _ (anything v)
                            (λ t h.
                              Gives-bind (λ r. r.1 ≤ 128) IsWellformed (parse_cidr 128 parse_ipv6 t)
                                _ (parse_cidr-Gives 128 parse_ipv6 t) (λ r h₁. h₁)))
                    | inr q7 ↦ rw (parse_keyword, q0, q1, q2, q3, q4, q5, q6, q7) tt
                  ]
                ]
              ]
            ]
          ]
        ]
      ]
    ]

parse_mechanism-Gives : (s : Bytes) → Gives IsWellformed (parse_mechanism s)
unfolding parse_mechanism
parse_mechanism-Gives s =
    let (keyword, rest) = break (λ c. c == 58 || c == 47) s in
    elim (Bool-cases (is_empty s)) [
      | inl q ↦ rw (parse_mechanism, q) tt
      | inr q ↦ rw (parse_mechanism, q) (parse_keyword-Gives (to_ascii_lowercase keyword) rest)
    ]

abbrev pub IsWellformedRecord : ParsedRecord → Type 0
IsWellformedRecord parsed = All (λ t. IsWellformed t.1) parsed.mechanisms × IsNamed parsed.redirect

parse_modifier-Gives :
    (redirect : Option Bytes) (name value : Bytes)
    → IsNamed redirect
    → Gives IsNamed (parse_modifier redirect name value)
unfolding parse_modifier
parse_modifier-Gives redirect name value h =
    elim (Bool-cases (eq_ignore_ascii_case name (codes "redirect"))) [
      | inr q ↦ rw (parse_modifier, q) h
      | inl q ↦ elim (Option-cases redirect) [
        | inr (t, e) ↦ rw (parse_modifier, q, e) tt
        | inl e ↦ elim (Bool-cases (is_empty value)) [
          | inl v ↦ rw (parse_modifier, q, e, v) tt
          | inr v ↦ rw (parse_modifier, q, e, v) (nonempty value v)
        ]
      ]
    ]

parse_terms-Gives :
    (redirect : Option Bytes) (terms : List Bytes)
    → IsNamed redirect
    → Gives IsWellformedRecord (parse_terms redirect terms)
unfolding parse_terms
parse_terms-Gives redirect [] h = (tt, h)
parse_terms-Gives redirect (term ∷ terms) h = elim (Option-cases (split_once 61 term)) [
  | inr ((name, value), e) ↦
      rw (parse_terms, e)
        (Gives-bind IsNamed IsWellformedRecord (parse_modifier redirect name value) _
          (parse_modifier-Gives redirect name value h) (λ r h₁. parse_terms-Gives r terms h₁))
  | inl e ↦
      rw (parse_terms, e)
        (Gives-bind IsWellformed IsWellformedRecord (parse_mechanism (qualified term).1) _
          (parse_mechanism-Gives (qualified term).1)
          (λ m h₁.
            Gives-bind IsWellformedRecord IsWellformedRecord (parse_terms redirect terms) _
              (parse_terms-Gives redirect terms h) (λ parsed h₂. ((h₁, h₂.0), h₂.1))))
]

parse_versioned-Gives : (ws : List Bytes) → Gives IsWellformedRecord (parse_versioned ws)
parse_versioned-Gives [] = tt
parse_versioned-Gives (version ∷ terms) = elim (Bool-cases (bytes_beq version (codes "v=spf1"))) [
  | inl q ↦ rw q (parse_terms-Gives none terms tt)
  | inr q ↦ rw q tt
]

-- In every record that parses, the prefix lengths are at most 32 for IPv4 and 128 for IPv6, and every
-- domain that is written out, the `redirect` one included, is not empty.
pub parse_record-IsWellformed :
    (record_text : Bytes) (parsed : ParsedRecord)
    → parse_record record_text ≡ some parsed
    → IsWellformedRecord parsed
unfolding parse_record
parse_record-IsWellformed record_text parsed h =
    subst (Gives IsWellformedRecord) h (parse_versioned-Gives (split_whitespace record_text))
