-- ===== src/Gateway/Vanity/Names.antt =====
-- Which names a vanity allocation of crates/gateway/src/authz.rs can give out.
use vulos_relay.Base.{
  ℕ, ◌≡◌, refl, ap, sym, ◌∙◌, Bool, true, false, not, some, [], ◌∷◌, Bytes, bytes_beq, codes, take,
  length, ◌||◌, All, if◌then◌else◌, arith,
}
use vulos_relay.Base.Result.{ok, err}
use vulos_relay.Base.Text.{to_ascii_lowercase, to_lower, strip_prefix, starts_with, every}
use vulos_relay.Gateway.Alias.Token.{base32_lower, base32_lower_lem, IsDigit}
use vulos_relay.Gateway.Vanity.{
  AliasAllocator, contains, has_dot, reserved_alias_prefix, is_valid_vanity_charset, is_base32,
  sixteen, is_key_derived_form, contains_dot, invalid_local_part, reserved_collision,
  shadows_directory_identity, check_vanity, key_derived_localpart,
}

-- In lower case, in the charset, without the reserved prefix and not of the shape of a key-derived
-- name.
pub record IsVanityName (lp : Bytes) : Type 0 where
  pub lower : to_ascii_lowercase lp ≡ lp
  pub charset : is_valid_vanity_charset lp ≡ true
  pub unprefixed : starts_with reserved_alias_prefix lp ≡ false
  pub chosen : is_key_derived_form lp ≡ false

to_lower_idem : (c : ℕ) → to_lower (to_lower c) ≡ to_lower c
unfolding to_lower
to_lower_idem c = ground arith

pub lower_idem : (s : Bytes) → to_ascii_lowercase (to_ascii_lowercase s) ≡ to_ascii_lowercase s
unfolding to_ascii_lowercase
lower_idem [] = refl
lower_idem (c ∷ s) = cc (to_lower_idem c, lower_idem s)

chain :
    {E A : Type 0} (dot charset prefix derived reserved : Bool) (e₁ e₂ e₃ e₄ : E) (x y : A)
    → (if dot
        then err e₁
        else if not charset
        then err e₂
        else if prefix || derived
        then err e₃
        else if reserved
        then err e₄
        else ok x)
      ≡ ok y
    → (x ≡ y) × (charset ≡ true) × (prefix ≡ false) × (derived ≡ false) × (reserved ≡ false)
chain dot charset prefix derived reserved e₁ e₂ e₃ e₄ x y h = ground (arith, h)

check_vanity-tests :
    (m : AliasAllocator) (local_part lp : Bytes)
    → check_vanity m local_part ≡ ok lp
    → (to_ascii_lowercase local_part ≡ lp)
      × (is_valid_vanity_charset (to_ascii_lowercase local_part) ≡ true)
      × (starts_with reserved_alias_prefix (to_ascii_lowercase local_part) ≡ false)
      × (is_key_derived_form (to_ascii_lowercase local_part) ≡ false)
      × (contains m.reserved (to_ascii_lowercase local_part) ≡ false)
unfolding check_vanity
check_vanity-tests m local_part lp h =
    let l = to_ascii_lowercase local_part in
    chain (has_dot local_part) (is_valid_vanity_charset l) (starts_with reserved_alias_prefix l)
      (is_key_derived_form l) (contains m.reserved l) (contains_dot local_part)
      (invalid_local_part local_part) (reserved_collision local_part)
      (shadows_directory_identity local_part) l lp h

-- A name that passes the checks is a vanity name that is not reserved.
pub check_vanity-ok :
    (m : AliasAllocator) (local_part lp : Bytes)
    → check_vanity m local_part ≡ ok lp
    → IsVanityName lp × (contains m.reserved lp ≡ false)
check_vanity-ok m local_part lp h =
    let (e, charset, unprefixed, chosen, free) = check_vanity-tests m local_part lp h in
    (
      record {
        lower = ap to_ascii_lowercase (sym e) ∙ lower_idem local_part ∙ e;
        charset = cc (e, charset);
        unprefixed = cc (e, unprefixed);
        chosen = cc (e, chosen);
      },
      cc (e, free),
    )

every-IsDigit : (s : Bytes) → All IsDigit s → every is_base32 s ≡ true
every-IsDigit [] h = refl
every-IsDigit (c ∷ s) h = ground (arith, h.0, every-IsDigit s h.1)

stripped : (t : Bytes) → strip_prefix (codes "k") (107 ∷ t) ≡ some t
unfolding strip_prefix bytes_beq
stripped t = refl

sixteen-digits : (t : Bytes) → length t ≡ 16 → every is_base32 t ≡ true → sixteen (some t) ≡ true
sixteen-digits t h e = ground (arith, h, e)

-- A key-derived name has the shape that no vanity name has, where the content address has at least
-- ten bytes.
pub key_derived_localpart-IsDerived :
    (digest : Bytes → Bytes) (k : Bytes)
    → length (take 10 (digest k)) ≡ 10
    → is_key_derived_form (key_derived_localpart digest k) ≡ true
unfolding is_key_derived_form key_derived_localpart
key_derived_localpart-IsDerived digest k h =
    let token = base32_lower (take 10 (digest k)) in
    let looks = base32_lower_lem (take 10 (digest k)) in
    ap sixteen (stripped token)
    ∙ sixteen-digits token (omega (arith, h, looks.0)) (every-IsDigit token looks.1)
