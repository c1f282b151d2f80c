-- ===== src/Gateway/Forwarded.antt =====
-- The forwarded addresses of crates/gateway/src/forwarded_addr.rs, on the bytes of the strings. A
-- byte that is not ASCII fails the tests of validity, so how it would be pushed does not matter.
pub mod Escaping
pub mod Exact
use vulos_relay.Base.{
  ℕ, ◌+◌, Bool, true, false, not, Option, none, some, List, [], ◌∷◌, ◌++◌, Bytes, bytes_beq, codes,
  ltb, leb, ◌==◌, ◌&&◌, ◌||◌, if◌then◌else◌, length,
}
use vulos_relay.Base.Result.{Result, ok, err}
use vulos_relay.Base.Text.{
  to_ascii_lowercase, is_empty, split, starts_with, ends_with, is_ascii_alphanumeric, every,
}

pub data ForwardedAddrError : Type 0 where
  invalid_local : Bytes → ForwardedAddrError
  invalid_domain : Bytes → ForwardedAddrError
  too_long : ℕ → ForwardedAddrError

abbrev pub max_localpart_len : ℕ
max_localpart_len = 64

-- `lp.contains("..")`
unfoldable pub has_double_dot : Bytes → Bool
has_double_dot [] = false
has_double_dot (c ∷ []) = false
has_double_dot (c ∷ d ∷ s) = (c == 46 && d == 46) || has_double_dot (d ∷ s)

abbrev pub is_local_byte : ℕ → Bool
is_local_byte c = is_ascii_alphanumeric c || c == 46 || c == 45 || c == 95 || c == 43

unfoldable pub is_valid_local : Bytes → Bool
unfolding is_empty starts_with ends_with has_double_dot
is_valid_local lp =
    if is_empty lp
      || ltb max_localpart_len (length lp)
      || starts_with (codes ".") lp
      || ends_with 46 lp
      || has_double_dot lp
    then false
    else every is_local_byte lp

-- One turn of the loop over the labels.
unfoldable pub is_valid_label : Bytes → Bool
unfolding is_empty starts_with ends_with
is_valid_label label =
    if is_empty label || ltb 63 (length label)
    then false
    else if starts_with (codes "-") label || ends_with 45 label
    then false
    else every (λ c. is_ascii_alphanumeric c || c == 45) label

unfoldable pub is_valid_domain : Bytes → Bool
unfolding is_empty split is_valid_label
is_valid_domain domain =
    if is_empty domain || ltb 253 (length domain)
    then false
    else every is_valid_label (split 46 domain)

unfoldable pub escape_into : Bytes → Bytes
escape_into [] = []
escape_into (c ∷ s) =
    let out = escape_into s in
    if c == 45 then 45 ∷ 45 ∷ out else if c == 46 then 45 ∷ 46 ∷ out else c ∷ out

abbrev pub joined : Bytes → Bytes → Bytes
joined local domain = escape_into local ++ 46 ∷ escape_into domain

unfoldable pub encode : Bytes → Bytes → Result ForwardedAddrError Bytes
unfolding to_ascii_lowercase is_valid_local is_valid_domain escape_into
encode local native_domain =
    let l = to_ascii_lowercase local in
    let d = to_ascii_lowercase native_domain in
    if not (is_valid_local l)
    then err (invalid_local l)
    else if not (is_valid_domain d)
    then err (invalid_domain d)
    else if ltb max_localpart_len (length (joined l d))
    then err (too_long (length (joined l d)))
    else ok (joined l d)

abbrev pub pushed : ℕ → Option (Bytes × Bytes) → Option (Bytes × Bytes)
pushed c none = none
pushed c (some (local, rest)) = some (c ∷ local, rest)

-- The scan of `decode`: the unescaped bytes before the first bare dot, and the bytes after it. The
-- flag says that the byte before was the `-` of an escape.
unfoldable pub scan_from : Bool → Bytes → Option (Bytes × Bytes)
scan_from escaped [] = none
scan_from true (c ∷ s) =
    let rest = scan_from false s in if c == 45 || c == 46 then pushed c rest else none
scan_from false (c ∷ s) =
    let escape = scan_from true s in
    let rest = scan_from false s in
    if c == 45 then escape else if c == 46 then some ([], s) else pushed c rest

unfoldable pub scan_local : Bytes → Option (Bytes × Bytes)
unfolding scan_from
scan_local = scan_from false

abbrev pub prefixed : ℕ → Option Bytes → Option Bytes
prefixed c none = none
prefixed c (some s) = some (c ∷ s)

unfoldable pub unescape_from : Bool → Bytes → Option Bytes
unescape_from true [] = none
unescape_from false [] = some []
unescape_from true (c ∷ s) =
    let rest = unescape_from false s in if c == 45 || c == 46 then prefixed c rest else none
unescape_from false (c ∷ s) =
    let escape = unescape_from true s in
    let rest = unescape_from false s in
    if c == 45 then escape else if c == 46 then none else prefixed c rest

unfoldable pub unescape_component : Bytes → Option Bytes
unfolding unescape_from
unescape_component = unescape_from false

-- The guard that the pair encodes to the text that was read.
unfoldable pub canonical : Bytes → Result ForwardedAddrError Bytes → Bool
canonical s (ok out) = bytes_beq out s
canonical s (err e) = false

abbrev pub checked : Bytes → Bytes → Bytes → Option (Bytes × Bytes)
checked s local domain =
    if not (is_valid_local local) || not (is_valid_domain domain)
    then none
    else if canonical s (encode local domain)
    then some (local, domain)
    else none

unfoldable pub decode : Bytes → Option (Bytes × Bytes)
unfolding to_ascii_lowercase scan_local unescape_component encode canonical
decode gateway_localpart =
    let s = to_ascii_lowercase gateway_localpart in
    elim (scan_local s) [
      | none ↦ none
      | some (local, rest) ↦ elim (unescape_component rest) [
        | none ↦ none
        | some domain ↦ checked s local domain
      ]
    ]
