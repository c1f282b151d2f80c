-- ===== src/Gateway/Forwarded/Exact.antt =====
-- Which texts `decode` of crates/gateway/src/forwarded_addr.rs reads, and as what.
use vulos_relay.Base.{
  ℕ, ◌≤◌, ◌<◌, ◌≡◌, ◌≢◌, ◌⊎◌, refl, ap, sym, subst, ◌∙◌, Bool, Bool-cases, true, false, some,
  Option-cases, inl, inr, [], ◌∷◌, ◌++◌, Bytes, bytes_beq, bytes_beq_iff, leb, ◌==◌, ◌||◌, length,
  arith,
}
use vulos_relay.Base.Result.{ok, Result-cases}
use vulos_relay.Base.Text.{to_ascii_lowercase}
use vulos_relay.Gateway.Forwarded.{
  is_valid_local, is_valid_domain, max_localpart_len, escape_into, joined, encode, scan_from,
  scan_local, unescape_from, prefixed, unescape_component, canonical, checked, decode,
}
use vulos_relay.Gateway.Forwarded.Escaping.{
  scan_from-escape_into, unescape_from-escape_into, lower_idem, lower-joined, checked-joined,
  decoded,
}

-- The text that a scan reads on, with the `-` of the escape that it is in.
abbrev with_escape : Bool → Bytes → Bytes
with_escape true s = 45 ∷ s
with_escape false s = s

-- What the scan finds is what was escaped before the first bare dot.
scan_from_sound :
    (escaped : Bool) (s l r : Bytes)
    → scan_from escaped s ≡ some (l, r)
    → with_escape escaped s ≡ escape_into l ++ 46 ∷ r
unfolding scan_from escape_into
scan_from_sound true [] l r h = ground (arith, h)
scan_from_sound false [] l r h = ground (arith, h)
scan_from_sound true (c ∷ s) l r h = elim (Option-cases (scan_from false s)) [
  | inl q ↦ ground (arith, h, q)
  | inr ((m, t), q) ↦ ground (arith, h, q, scan_from_sound false s m t q)
]
scan_from_sound false (c ∷ s) l r h = elim (Option-cases (scan_from false s)) [
  | inl q ↦ ground (arith, h, q, scan_from_sound true s l r)
  | inr ((m, t), q) ↦
      ground (arith, h, q, scan_from_sound true s l r, scan_from_sound false s m t q)
]

-- The two bytes that are escaped, and how an escape is read.
escape_into-special :
    (c : ℕ) (d : Bytes)
    → (c == 45) || (c == 46) ≡ true
    → escape_into (c ∷ d) ≡ 45 ∷ c ∷ escape_into d
unfolding escape_into
escape_into-special c d h = ground (arith, h)

unescape_from-special :
    (c : ℕ) (s d : Bytes)
    → unescape_from true (c ∷ s) ≡ some d
    → ((c == 45) || (c == 46) ≡ true) × (prefixed c (unescape_from false s) ≡ some d)
unfolding unescape_from
unescape_from-special c s d h = (ground (arith, h), ground (arith, h))

prefixed-some : (c : ℕ) (t d : Bytes) → prefixed c (some t) ≡ some d → c ∷ t ≡ d
prefixed-some c t d h = ground (arith, h)

unescape_from_sound :
    (escaped : Bool) (s d : Bytes)
    → unescape_from escaped s ≡ some d
    → with_escape escaped s ≡ escape_into d
unfolding unescape_from escape_into
unescape_from_sound true [] d h = ground (arith, h)
unescape_from_sound false [] d h = ground (arith, h)
unescape_from_sound true (c ∷ s) d h =
    let (test, read) = unescape_from-special c s d h in
    elim (Option-cases (unescape_from false s)) [
      | inl q ↦ ground (arith, read, q)
      | inr (t, q) ↦
          ap (λ z. 45 ∷ c ∷ z) (unescape_from_sound false s t q)
          ∙ sym (escape_into-special c t test)
          ∙ ap escape_into (prefixed-some c t d (sym (ap (prefixed c) q) ∙ read))
    ]
unescape_from_sound false (c ∷ s) d h = elim (Bool-cases (c == 45)) [
  | inl q ↦
      ap (λ z. z ∷ s) (ground (arith, q))
      ∙ unescape_from_sound true s d (sym (rw (unescape_from, q) refl) ∙ h)
  | inr q ↦ elim (Option-cases (unescape_from false s)) [
    | inl r ↦ ground (arith, h, q, r)
    | inr (t, r) ↦ ground (arith, h, q, r, unescape_from_sound false s t r)
  ]
]

-- What a decoding that succeeds says of the text.
encode-fits : (l d out : Bytes) → encode l d ≡ ok out → length out ≤ max_localpart_len
unfolding encode
encode-fits l d out h = ground (arith, h)

checked_sound :
    (s l₁ d₁ l d : Bytes)
    → checked s l₁ d₁ ≡ some (l, d)
    → (l₁ ≡ l)
      × (d₁ ≡ d)
      × (is_valid_local l₁ ≡ true)
      × (is_valid_domain d₁ ≡ true)
      × (length s ≤ max_localpart_len)
unfolding canonical
checked_sound s l₁ d₁ l d h = elim (Result-cases (encode l₁ d₁)) [
  | inl (e, q) ↦ ground (arith, h, q)
  | inr (out, q) ↦
      let same : bytes_beq out s ≡ true = ground (arith, h, q) in
      (
        ground (arith, h, q),
        ground (arith, h, q),
        ground (arith, h, q),
        ground (arith, h, q),
        subst (λ t. length t ≤ max_localpart_len) ((bytes_beq_iff out s).0 same)
            (encode-fits l₁ d₁ out q),
      )
]

decode_sound :
    (text l d : Bytes)
    → decode text ≡ some (l, d)
    → (to_ascii_lowercase text ≡ joined l d)
      × (is_valid_local l ≡ true)
      × (is_valid_domain d ≡ true)
      × (length (to_ascii_lowercase text) ≤ max_localpart_len)
unfolding decode scan_local unescape_component
decode_sound text l d h = elim (Option-cases (scan_from false (to_ascii_lowercase text))) [
  | inl q ↦ ground (arith, h, q)
  | inr ((l₁, rest), q) ↦ elim (Option-cases (unescape_from false rest)) [
    | inl r ↦ ground (arith, h, q, r)
    | inr (d₁, r) ↦
        let s = to_ascii_lowercase text in
        let opened : decode text ≡ checked s l₁ d₁ = rw (decode, q, r) refl in
        let (el, ed, vl, vd, fits) = checked_sound s l₁ d₁ l d (sym opened ∙ h) in
        let read : s ≡ joined l₁ d₁ =
          scan_from_sound false s l₁ rest q
          ∙ ap (λ t. escape_into l₁ ++ 46 ∷ t) (unescape_from_sound false rest d₁ r) in
        (cc (read, el, ed), cc (el, vl), cc (ed, vd), fits)
  ]
]

-- The parts of a joined pair are determined by it.
joined_inj : (l d l₁ d₁ : Bytes) → joined l d ≡ joined l₁ d₁ → (l ≡ l₁) × (d ≡ d₁)
joined_inj l d l₁ d₁ h =
    let scanned : some (l, escape_into d) ≡ some (l₁, escape_into d₁) =
      sym (scan_from-escape_into l (escape_into d))
      ∙ ap (scan_from false) h
      ∙ scan_from-escape_into l₁ (escape_into d₁) in
    let rests : escape_into d ≡ escape_into d₁ = ground (arith, scanned) in
    let domains : some d ≡ some d₁ =
      sym (unescape_from-escape_into d)
      ∙ ap (unescape_from false) rests
      ∙ unescape_from-escape_into d₁ in
    (ground (arith, scanned), ground (arith, domains))

encode-joined :
    (l d : Bytes)
    → to_ascii_lowercase l ≡ l
    → to_ascii_lowercase d ≡ d
    → is_valid_local l ≡ true
    → is_valid_domain d ≡ true
    → length (joined l d) ≤ max_localpart_len
    → encode l d ≡ ok (joined l d)
unfolding encode
encode-joined l d el ed vl vd fits = rw (encode, el, ed) (ground (arith, vl, vd, fits))

decode_complete :
    (text l d : Bytes)
    → to_ascii_lowercase text ≡ joined l d
    → is_valid_local l ≡ true
    → is_valid_domain d ≡ true
    → length (to_ascii_lowercase text) ≤ max_localpart_len
    → decode text ≡ some (l, d)
decode_complete text l d e vl vd fits =
    let (el, ed) =
      joined_inj (to_ascii_lowercase l) (to_ascii_lowercase d) l d
        (sym (lower-joined l d) ∙ ap to_ascii_lowercase (sym e) ∙ lower_idem text ∙ e) in
    decoded text l d e (
      checked-joined l d vl vd
        (encode-joined l d el ed vl vd (subst (λ t. length t ≤ max_localpart_len) e fits)))

-- Decoding gives a pair exactly for the text that is, in lower case, the escaped local part, a dot
-- and the escaped domain, where both parts are valid and the text fits a local part; for any other
-- text it does not give that pair.
pub decode_exact :
    (text local domain : Bytes)
    → ((decode text ≡ some (local, domain))
        × (to_ascii_lowercase text ≡ escape_into local ++ 46 ∷ escape_into domain)
        × (is_valid_local local ≡ true)
        × (is_valid_domain domain ≡ true)
        × (length (to_ascii_lowercase text) ≤ 64))
      ⊎ ((decode text ≢ some (local, domain))
          × ((to_ascii_lowercase text ≢ escape_into local ++ 46 ∷ escape_into domain)
              ⊎ (is_valid_local local ≡ false)
              ⊎ (is_valid_domain domain ≡ false)
              ⊎ (64 < length (to_ascii_lowercase text))))
decode_exact text local domain =
    let s = to_ascii_lowercase text in
    let sound = decode_sound text local domain in
    elim (Bool-cases (bytes_beq s (joined local domain))) [
      | inr q ↦
          let ne : s ≢ joined local domain =
            λ e. ground (arith, q, e, bytes_beq_iff s (joined local domain)) in
          inr ((λ h. ne (sound h).0), inl ne)
      | inl q ↦ elim (Bool-cases (is_valid_local local)) [
        | inr v ↦ inr ((λ h. differ (is_valid_local local) v (sound h).1), inr (inl v))
        | inl vl ↦ elim (Bool-cases (is_valid_domain domain)) [
          | inr v ↦ inr ((λ h. differ (is_valid_domain domain) v (sound h).2), inr (inr (inl v)))
          | inl vd ↦ elim (Bool-cases (leb (length s) max_localpart_len)) [
            | inr v ↦
                inr ((λ h. ground (arith, v, (sound h).3)), inr (inr (inr (ground (arith, v)))))
            | inl v ↦
                let e = (bytes_beq_iff s (joined local domain)).0 q in
                let fits : length s ≤ max_localpart_len = ground (arith, v) in
                inl (decode_complete text local domain e vl vd fits, e, vl, vd, fits)
          ]
        ]
      ]
    ]
  where
    differ : (b : Bool) → b ≡ false → b ≢ true
    differ b p q = cc (p, q)
