-- ===== src/Gateway/Forwarded/Escaping.antt =====
-- Decoding undoes the encoding of crates/gateway/src/forwarded_addr.rs.
use vulos_relay.Base.{
  ℕ, ◌≡◌, refl, ap, sym, subst, ◌∙◌, true, false, some, [], ◌∷◌, ◌++◌, Bytes, bytes_beq_iff, arith,
}
use vulos_relay.Base.Result.{ok}
use vulos_relay.Base.Text.{to_lower, to_ascii_lowercase}
use vulos_relay.Gateway.Forwarded.{
  is_valid_local, is_valid_domain, escape_into, joined, encode, scan_from, scan_local,
  unescape_from, unescape_component, canonical, checked, decode,
}

pub scan_from-escape_into : (l r : Bytes) → scan_from false (escape_into l ++ 46 ∷ r) ≡ some (l, r)
unfolding scan_from escape_into
scan_from-escape_into [] r = refl
scan_from-escape_into (c ∷ l) r = ground (arith, scan_from-escape_into l r)

pub unescape_from-escape_into : (d : Bytes) → unescape_from false (escape_into d) ≡ some d
unfolding unescape_from escape_into
unescape_from-escape_into [] = refl
unescape_from-escape_into (c ∷ d) = ground (arith, unescape_from-escape_into d)

to_lower_idem : (c : ℕ) → to_lower (to_lower c) ≡ to_lower c
unfolding to_lower
to_lower_idem c = ground arith

pub lower_idem : (s : Bytes) → to_ascii_lowercase (to_ascii_lowercase s) ≡ to_ascii_lowercase s
unfolding to_ascii_lowercase
lower_idem [] = refl
lower_idem (c ∷ s) = cc (to_lower_idem c, lower_idem s)

-- Lower case leaves the escapes and the separator as they are.
lower-escape_into :
    (s : Bytes) → to_ascii_lowercase (escape_into s) ≡ escape_into (to_ascii_lowercase s)
unfolding to_ascii_lowercase escape_into to_lower
lower-escape_into [] = refl
lower-escape_into (c ∷ s) = ground (arith, lower-escape_into s)

lower-append :
    (s t : Bytes) → to_ascii_lowercase (s ++ t) ≡ to_ascii_lowercase s ++ to_ascii_lowercase t
unfolding to_ascii_lowercase
lower-append [] t = refl
lower-append (c ∷ s) t = cc (lower-append s t)

pub lower-joined :
    (l d : Bytes)
    → to_ascii_lowercase (joined l d) ≡ joined (to_ascii_lowercase l) (to_ascii_lowercase d)
unfolding to_ascii_lowercase to_lower
lower-joined l d =
    lower-append (escape_into l) (46 ∷ escape_into d)
    ∙ cc (lower-escape_into l, lower-escape_into d)

-- What an encoding that succeeds says of the pair.
encode-ok :
    (l d out : Bytes)
    → encode l d ≡ ok out
    → (is_valid_local (to_ascii_lowercase l) ≡ true)
      × (is_valid_domain (to_ascii_lowercase d) ≡ true)
      × (out ≡ joined (to_ascii_lowercase l) (to_ascii_lowercase d))
unfolding encode
encode-ok l d out h = ground (arith, h)

encode-lower : (l d : Bytes) → encode (to_ascii_lowercase l) (to_ascii_lowercase d) ≡ encode l d
unfolding encode
encode-lower l d = cc (lower_idem l, lower_idem d)

-- What `decode` makes of a joined pair whose encoding is the text that was read.
pub checked-joined :
    (l d : Bytes)
    → is_valid_local l ≡ true
    → is_valid_domain d ≡ true
    → encode l d ≡ ok (joined l d)
    → checked (joined l d) l d ≡ some (l, d)
unfolding canonical
checked-joined l d hl hd e =
    rw (hl, hd, e) (ground (arith, bytes_beq_iff (joined l d) (joined l d)))

pub decoded :
    (s l d : Bytes)
    → to_ascii_lowercase s ≡ joined l d
    → checked (joined l d) l d ≡ some (l, d)
    → decode s ≡ some (l, d)
unfolding decode scan_local unescape_component
decoded s l d h e =
    rw (decode, h, scan_from-escape_into l (escape_into d), unescape_from-escape_into d)
      (subst (λ t. checked t l d ≡ some (l, d)) (sym h) e)

-- An address that was encoded decodes to the pair in lower case, whatever the case in which the
-- encoded text comes back.
pub decode-encode :
    (local domain out folded : Bytes)
    → encode local domain ≡ ok out
    → to_ascii_lowercase folded ≡ to_ascii_lowercase out
    → decode folded ≡ some (to_ascii_lowercase local, to_ascii_lowercase domain)
decode-encode local domain out folded h same =
    let l = to_ascii_lowercase local in
    let d = to_ascii_lowercase domain in
    let (hl, hd, e) = encode-ok local domain out h in
    decoded folded l d
      (same ∙ ap to_ascii_lowercase e ∙ lower-joined l d ∙ cc (lower_idem local, lower_idem domain))
      (checked-joined l d hl hd (encode-lower local domain ∙ h ∙ ap ok e))
