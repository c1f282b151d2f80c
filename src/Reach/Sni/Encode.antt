-- ===== src/Reach/Sni/Encode.antt =====
-- How the parts of a ClientHello are written, and that the parser reads each of them back.
use vulos_relay.Base.{
  ℕ, zero, suc, ◌/◌, ◌%◌, ◌≤◌, ◌<◌, ◌≡◌, ◌≢◌, ap, some, List, [], ◌∷◌, ◌++◌, append_assoc,
  append-nil, arith, Bytes, length, length-append, take-append-length, drop-append-length, All,
  is_utf8, true, false, ◌==◌, if◌then◌else◌,
}
use vulos_relay.Base.Result.{Result, ok}
use vulos_relay.Reach.Sni.{
  SniError, answer, go_on, take_bytes, take_u8, take_u16, take_u24, host_name, to_round, and_then,
  name_entry, extension, scan, scan_all, parse_server_name_extension,
}

-- Big-endian fields.
abbrev pub w16 : ℕ → Bytes
w16 n = (n / 256) ∷ (n % 256) ∷ []

abbrev pub w24 : ℕ → Bytes
w24 n = (n / 65536) ∷ (n / 256 % 256) ∷ (n % 256) ∷ []

-- A field of bytes behind its length.
abbrev pub opaque8 : Bytes → Bytes
opaque8 s = length s ∷ s

abbrev pub opaque16 : Bytes → Bytes
opaque16 s = w16 (length s) ++ s

pub take_bytes-append : (a s : Bytes) → take_bytes (length a) (a ++ s) ≡ ok (a, s)
unfolding take_bytes
take_bytes-append a s =
    ground (arith, length-append a s, take-append-length a s, drop-append-length a s)

pub take_u16-w16 : (n : ℕ) (s : Bytes) → n < 65536 → take_u16 (w16 n ++ s) ≡ ok (n, s)
unfolding take_u16
take_u16-w16 n s h = ap (λ k. ok (k, s)) (omega arith)

pub take_u24-w24 : (n : ℕ) (s : Bytes) → take_u24 (w24 n ++ s) ≡ ok (n, s)
unfolding take_u24
take_u24-w24 n s = ap (λ k. ok (k, s)) (omega arith)

-- An extension other than `server_name`, by its type and its data.
abbrev pub encode_extension : ℕ × Bytes → Bytes
encode_extension (ext_type, ext_data) = w16 ext_type ++ opaque16 ext_data

abbrev pub encode_extensions : List (ℕ × Bytes) → Bytes
encode_extensions [] = []
encode_extensions (e ∷ es) = encode_extension e ++ encode_extensions es

abbrev pub IsOther : ℕ × Bytes → Type 0
IsOther (ext_type, ext_data) = (ext_type ≢ 0) × (ext_type < 65536) × (length ext_data < 65536)

extension-encode :
    (on_name : Bytes → Result SniError Bytes) (t : ℕ) (d s : Bytes)
    → t < 65536
    → length d < 65536
    → extension on_name (encode_extension (t, d) ++ s)
      ≡ (if t == 0 then answer (on_name d) else go_on s)
unfolding extension
extension-encode on_name t d s ht hd =
    rw (take_u16-w16 t (opaque16 d ++ s) ht, to_round, extension)
      (rw (take_u16-w16 (length d) (d ++ s) hd, to_round) (rw (take_bytes-append d s, to_round)))

-- The first `server_name` extension behind any others answers, whatever follows it.
pub scan-encode :
    (on_name : Bytes → Result SniError Bytes) (es : List (ℕ × Bytes)) (d after : Bytes) (fuel : ℕ)
    → All IsOther es
    → length d < 65536
    → length (encode_extensions es ++ (encode_extension (0, d) ++ after)) ≤ fuel
    → scan fuel (extension on_name) (encode_extensions es ++ (encode_extension (0, d) ++ after))
      ≡ some (on_name d)
unfolding scan
scan-encode on_name [] d after zero o hd h = absurd (omega arith)
scan-encode on_name [] d after (suc fuel) o hd h =
    rw (extension-encode on_name 0 d after (omega arith) hd, scan)
scan-encode on_name ((t, x) ∷ es) d after zero o hd h = absurd (omega arith)
scan-encode on_name ((t, x) ∷ es) d after (suc fuel) o hd h =
    rw
      (
        append_assoc x (encode_extensions es) (encode_extension (0, d) ++ after),
        extension-encode on_name t x rest o.0.1 o.0.2,
        other,
        scan,
      )
      (scan-encode on_name es d after fuel o.1 hd (
        omega (
          arith,
          length-append x rest,
          ap length (append_assoc x (encode_extensions es) (encode_extension (0, d) ++ after)),
        )))
  where
    rest : Bytes
    rest = encode_extensions es ++ (encode_extension (0, d) ++ after)

    other : (t == 0) ≡ false
    other = ground arith

-- The name list with one entry, a host name.
abbrev pub encode_server_name : Bytes → Bytes
encode_server_name name = opaque16 (0 ∷ opaque16 name)

-- A name that the parser accepts.
abbrev pub IsHostName : Bytes → Type 0
IsHostName name = (length name ≢ 0) × (is_utf8 name ≡ true) × (length name < 65000)

pub take_bytes_exact : (n : ℕ) (a s : Bytes) → length a ≡ n → take_bytes n (a ++ s) ≡ ok (a, s)
take_bytes_exact n a s e = rw (← e) (take_bytes-append a s)

pub take_bytes_all : (a : Bytes) → take_bytes (length a) a ≡ ok (a, [])
take_bytes_all a = rw append-nil at (take_bytes-append a [])

name_entry-encode :
    (name : Bytes) → IsHostName name → name_entry (0 ∷ opaque16 name) ≡ answer (ok name)
unfolding name_entry take_u8 host_name
name_entry-encode name h =
    rw (take_u16-w16 (length name) name (omega arith), to_round)
      (rw (take_bytes_all name, to_round) (ground arith))

pub parse-encode_server_name :
    (name : Bytes)
    → IsHostName name
    → parse_server_name_extension (encode_server_name name) ≡ ok name
unfolding parse_server_name_extension scan_all scan
parse-encode_server_name name h =
    rw (take_u16-w16 (length list) list (omega arith), and_then)
      (rw (take_bytes_all list, and_then) (rw (name_entry-encode name h, scan)))
  where
    list : Bytes
    list = 0 ∷ opaque16 name
