-- ===== src/Tests/Addresses.antt =====
-- Forwarded addresses and vanity names on small inputs.
use vulos_relay.Base.{
  ◌≤◌, ◌<◌, ◌++◌, length, ◌≡◌, ◌≢◌, ◌⊎◌, inr, refl, true, false, some, List, [], ◌∷◌, Bytes,
  bytes_eq, bytes_beq, bytes_beq_iff, codes, is_blank, any, arith,
}
use vulos_relay.Base.Dict.{get, insert, remove}
use vulos_relay.Base.Result.{ok}
use vulos_relay.Base.Text
use vulos_relay.Base.Text.{to_ascii_lowercase}
use vulos_relay.Gateway.Forwarded
use vulos_relay.Gateway.Forwarded.{encode, decode}
use vulos_relay.Gateway.Forwarded.Escaping.{decode-encode}
use vulos_relay.Gateway.Forwarded.Exact.{decode_exact}
use vulos_relay.Gateway.Vanity
use vulos_relay.Gateway.Vanity.{AliasAllocator, for_domain, alias_for, resolve}
use vulos_relay.Gateway.Vanity.Holding.{Call, allocates, releases, reserves, run}
use vulos_relay.Gateway.Vanity.Holding
use vulos_relay.Gateway.Vanity.Resolving.{alias_for-resolves}

abbrev text : Bytes
text = codes "a-.b.mail-.org"

encodes : encode (codes "A.b") (codes "Mail.org") ≡ ok text
unfolding encode to_ascii_lowercase Text.to_lower Forwarded.is_valid_local Forwarded.is_valid_domain
    Forwarded.is_valid_label Forwarded.has_double_dot Forwarded.escape_into Text.is_empty Text.split
    Text.starts_with Text.ends_with bytes_beq
encodes = refl

decodes : decode (codes "A-.B.mail-.ORG") ≡ some (codes "a.b", codes "mail.org")
unfolding decode encode to_ascii_lowercase Text.to_lower Forwarded.is_valid_local
    Forwarded.is_valid_domain Forwarded.is_valid_label Forwarded.has_double_dot
    Forwarded.escape_into Forwarded.scan_local Forwarded.scan_from Forwarded.unescape_component
    Forwarded.unescape_from Forwarded.canonical Text.is_empty Text.split Text.starts_with
    Text.ends_with bytes_beq
decodes = refl

same_lower : to_ascii_lowercase (codes "A-.B.mail-.ORG") ≡ to_ascii_lowercase text
unfolding to_ascii_lowercase Text.to_lower
same_lower = refl

decode-encode_example :
    decode (codes "A-.B.mail-.ORG")
    ≡ some (to_ascii_lowercase (codes "A.b"), to_ascii_lowercase (codes "Mail.org"))
decode-encode_example =
    decode-encode (codes "A.b") (codes "Mail.org") text (codes "A-.B.mail-.ORG") encodes same_lower

decode_exact_example :
    ((decode (codes "A-.B.mail-.ORG") ≡ some (codes "a.b", codes "mail.org"))
      × (to_ascii_lowercase (codes "A-.B.mail-.ORG")
          ≡ Forwarded.escape_into (codes "a.b") ++ 46 ∷ Forwarded.escape_into (codes "mail.org"))
      × (Forwarded.is_valid_local (codes "a.b") ≡ true)
      × (Forwarded.is_valid_domain (codes "mail.org") ≡ true)
      × (length (to_ascii_lowercase (codes "A-.B.mail-.ORG")) ≤ 64))
    ⊎ ((decode (codes "A-.B.mail-.ORG") ≢ some (codes "a.b", codes "mail.org"))
        × ((to_ascii_lowercase (codes "A-.B.mail-.ORG")
              ≢ Forwarded.escape_into (codes "a.b")
                ++ 46 ∷ Forwarded.escape_into (codes "mail.org"))
            ⊎ (Forwarded.is_valid_local (codes "a.b") ≡ false)
            ⊎ (Forwarded.is_valid_domain (codes "mail.org") ≡ false)
            ⊎ (64 < length (to_ascii_lowercase (codes "A-.B.mail-.ORG")))))
decode_exact_example = decode_exact (codes "A-.B.mail-.ORG") (codes "a.b") (codes "mail.org")

abbrev allocator : AliasAllocator
allocator = record { domain = codes "gw.org"; vanity = []; reverse = []; reserved = [] }

starts : for_domain (codes " GW.org ") ≡ ok allocator
unfolding for_domain Vanity.is_valid_dns_domain Forwarded.is_valid_domain Forwarded.is_valid_label
    to_ascii_lowercase Text.to_lower Text.trim Text.chars Text.concat Text.drop_while Text.reverse
    is_blank Text.is_empty Text.split Text.starts_with Text.ends_with bytes_beq
starts = refl

abbrev alice : Bytes
alice = 1 ∷ []

abbrev bob : Bytes
bob = 2 ∷ []

-- Alice takes a name, gives it up and takes another; Bob takes the first.
abbrev calls : List Call
calls =
    allocates alice (codes "Ann")
    ∷ allocates bob (codes "ann")
    ∷ releases alice
    ∷ allocates bob (codes "ann")
    ∷ allocates alice (codes "al")
    ∷ reserves (codes "al")
    ∷ []

after_calls : (run allocator calls).reverse ≡ (bob, codes "ann") ∷ []
unfolding run Holding.after Vanity.allocate_vanity Vanity.check_vanity Vanity.claim Vanity.bind
    Vanity.drop_prior Vanity.remove_first Vanity.release_vanity Vanity.reserve_localpart
    Vanity.reserve Vanity.is_valid_vanity_charset Vanity.is_key_derived_form to_ascii_lowercase
    Text.to_lower Text.is_empty Text.starts_with Text.strip_prefix Text.trim Text.chars Text.concat
    Text.drop_while Text.reverse is_blank bytes_beq get insert remove
after_calls = refl

-- A content address that repeats the key's bytes.
abbrev digest : Bytes → Bytes
digest k = k

abbrev carol : Bytes
carol = 7 ∷ 7 ∷ 7 ∷ 7 ∷ 7 ∷ 7 ∷ 7 ∷ 7 ∷ 7 ∷ 7 ∷ []

alias_for-resolves_example :
    resolve digest (run allocator calls) (alias_for digest (run allocator calls) carol) (carol ∷ [])
    ≡ some carol
alias_for-resolves_example =
    alias_for-resolves digest (codes " GW.org ") allocator calls carol (carol ∷ []) starts refl
      known (inr refl, tt)
  where
    known : any (λ j. bytes_beq j carol) (carol ∷ []) ≡ true
    known = ground (arith, bytes_beq_iff carol carol)
