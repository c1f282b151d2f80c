-- ===== src/Reach/Registry/Names.antt =====
-- Names are kept as they were sent and looked up in lower case.
use vulos_relay.Base.{ℕ, ◌≡◌, ◌≢◌, refl, ap, ◌∙◌, sym, [], ◌∷◌, arith, Bytes, bytes_eq}
use vulos_relay.Base.Text.{to_lower, to_ascii_lowercase}
use vulos_relay.Base.Dict.{get, get-insert_ne}
use vulos_relay.Reach.Registry.{Registration, RegistryState, register, lookup, to_lookup}

to_lower_idem : (c : ℕ) → to_lower (to_lower c) ≡ to_lower c
unfolding to_lower
to_lower_idem c = ground arith

to_ascii_lowercase_idem :
    (s : Bytes) → to_ascii_lowercase (to_ascii_lowercase s) ≡ to_ascii_lowercase s
unfolding to_ascii_lowercase
to_ascii_lowercase_idem [] = refl
to_ascii_lowercase_idem (c ∷ s) = cc (to_lower_idem c, to_ascii_lowercase_idem s)

module _ {Handle : Type 0} (st : RegistryState Handle) where
  -- A lookup gives the same answer for every spelling of a name in upper and lower case.
  lookup_case :
      (a b : Bytes) → to_ascii_lowercase a ≡ to_ascii_lowercase b → lookup st a ≡ lookup st b
  unfolding lookup
  lookup_case a b e = ap (λ k. to_lookup (get st.tunnels k)) e

  -- A registration under a name that holds an upper-case letter is reached by no lookup: whatever
  -- name is asked for, the answer is the one from before the registration.
  pub lookup-register_upper :
      (registration : Registration) (owner_ik : Bytes) (handle : Handle) (sni : Bytes)
      → to_ascii_lowercase registration.name ≢ registration.name
      → lookup (register st registration owner_ik handle).1 sni ≡ lookup st sni
  unfolding register lookup
  lookup-register_upper registration owner_ik handle sni upper =
      grind (arith, get-insert_ne, missed)
    where
      missed : registration.name ≢ to_ascii_lowercase sni
      missed e = upper (ap to_ascii_lowercase e ∙ to_ascii_lowercase_idem sni ∙ sym e)
