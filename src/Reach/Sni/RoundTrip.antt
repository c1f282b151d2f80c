-- ===== src/Reach/Sni/RoundTrip.antt =====
-- A well-formed ClientHello with a `server_name` extension is parsed to its host name.
use vulos_relay.Base.{
  ℕ, ◌+◌, ◌*◌, ◌/◌, ◌%◌, ◌≤◌, ◌<◌, ◌≡◌, refl, ap, ◌∙◌, some, List, [], ◌∷◌, ◌++◌, append_assoc,
  arith, Bytes, length, take, length-append, take-append-length, All, false, ◌==◌,
}
use vulos_relay.Base.Result.{ok}
use vulos_relay.Reach.Reader.{◌>>=◌}
use vulos_relay.Reach.Sni.{
  complete, take_u8, and_then, extension, scan, scan_all, parse_server_name_extension, skip_fixed,
  parse_client_hello_body, complete_with, parse_record, try_parse,
}
use vulos_relay.Reach.Sni.Encode.{
  w16, w24, opaque8, opaque16, take_bytes-append, take_u16-w16, take_u24-w24, encode_extension,
  encode_extensions, IsOther, scan-encode, encode_server_name, IsHostName, take_bytes_exact,
  take_bytes_all, parse-encode_server_name,
}

pub record Hello : Type 0 where
  pub version : Bytes
  pub random : Bytes
  pub session_id : Bytes
  pub cipher_suites : Bytes
  pub compression_methods : Bytes
  pub others : List (ℕ × Bytes)
  pub server_name : Bytes
  pub more : Bytes

-- The extension block: other extensions, the server name, and more bytes.
abbrev pub encode_block : Hello → Bytes
encode_block h =
    encode_extensions h.others ++ (encode_extension (0, encode_server_name h.server_name) ++ h.more)

abbrev pub encode_body : Hello → Bytes
encode_body h =
    h.version
    ++ (h.random
        ++ (opaque8 h.session_id
            ++ (opaque16 h.cipher_suites
                ++ (opaque8 h.compression_methods ++ opaque16 (encode_block h)))))

-- The handshake message, and the record that carries it.
abbrev pub encode_message : Hello → Bytes
encode_message h = 1 ∷ (w24 (length (encode_body h)) ++ encode_body h)

abbrev pub encode_hello : Hello → Bytes
encode_hello h = 0x16 ∷ 3 ∷ 1 ∷ (w16 (length (encode_message h)) ++ encode_message h)

-- Fields of the sizes that their lengths can say, in a record of at most 2^14 bytes.
pub record IsWellFormed (h : Hello) : Type 0 where
  pub version_size : length h.version ≡ 2
  pub random_size : length h.random ≡ 32
  pub ciphers_size : length h.cipher_suites < 65536
  pub others_kind : All IsOther h.others
  pub host : IsHostName h.server_name
  pub record_size : length (encode_message h) ≤ 0x4000

skip_fixed-encode :
    (h : Hello) → IsWellFormed h → skip_fixed (encode_body h) ≡ ok (tt, opaque16 (encode_block h))
unfolding skip_fixed take_u8
skip_fixed-encode h w =
    rw (take_bytes_exact 2 h.version _ w.version_size, ◌>>=◌)
      (rw (take_bytes_exact 32 h.random _ w.random_size, ◌>>=◌)
        (rw (take_bytes-append h.session_id _, ◌>>=◌)
          (rw
            (
              append_assoc (w16 (length h.cipher_suites)) h.cipher_suites _,
              take_u16-w16 (length h.cipher_suites) _ w.ciphers_size,
              ◌>>=◌,
            )
            (rw (take_bytes-append h.cipher_suites _, ◌>>=◌)
              (rw (take_bytes-append h.compression_methods _, ◌>>=◌))))))

length_tail_le : (a s : Bytes) → length s ≤ length (a ++ s)
length_tail_le a s = omega (arith, length-append a s)

length-encode_body : (h : Hello) → length (encode_block h) + 2 ≤ length (encode_body h)
length-encode_body h = omega (
  arith,
  length_tail_le h.version (h.random ++ behind_random),
  length_tail_le h.random behind_random,
  length_tail_le h.session_id behind_session,
  length_tail_le h.cipher_suites behind_ciphers,
  length_tail_le h.compression_methods (opaque16 (encode_block h)),
  length-append (opaque16 h.cipher_suites) behind_ciphers,
  length-append h.cipher_suites behind_ciphers,
)
  where
    behind_ciphers : Bytes
    behind_ciphers = opaque8 h.compression_methods ++ opaque16 (encode_block h)

    behind_session : Bytes
    behind_session = opaque16 h.cipher_suites ++ behind_ciphers

    behind_random : Bytes
    behind_random = opaque8 h.session_id ++ behind_session

-- The block and the name data are short enough for their length fields.
block_small : (h : Hello) → IsWellFormed h → length (encode_block h) < 65536
block_small h w = let small = w.record_size in omega (arith, length-encode_body h)

parse-encode_body :
    (h : Hello) → IsWellFormed h → parse_client_hello_body (encode_body h) ≡ ok h.server_name
unfolding parse_client_hello_body scan_all
parse-encode_body h w =
    rw (skip_fixed-encode h w, and_then)
      (rw (present, take_u16-w16 (length block) block (block_small h w), and_then)
        (rw (take_bytes_all block, and_then)
          (rw (scanned) (parse-encode_server_name h.server_name w.host))))
  where
    block : Bytes
    block = encode_block h

    present : (length (opaque16 block) == 0) ≡ false
    present = ground arith

    scanned :
        scan (length block) (extension parse_server_name_extension) block
        ≡ some (parse_server_name_extension (encode_server_name h.server_name))
    scanned =
        let host = w.host in
        scan-encode parse_server_name_extension h.others (encode_server_name h.server_name) h.more
          (length block) w.others_kind (omega arith) (omega arith)

take_all : (a : Bytes) → take (length a) a ≡ a
take_all [] = refl
take_all (b ∷ a) = ap (◌∷◌ b) (take_all a)

try_parse_record :
    (m rest : Bytes)
    → 0 < length m
    → length m ≤ 0x4000
    → try_parse (0x16 ∷ 3 ∷ 1 ∷ (w16 (length m) ++ (m ++ rest))) ≡ parse_record m
unfolding try_parse
try_parse_record m rest pos le =
    rw size (ground (arith, length-append m rest, take-append-length m rest))
  where
    size : length m / 256 * 256 + length m % 256 ≡ length m
    size = omega arith

parse_record_message :
    (b : Bytes)
    → parse_record (1 ∷ (w24 (length b) ++ b)) ≡ complete_with (parse_client_hello_body b)
unfolding parse_record take_u8
parse_record_message b = rw (take_u24-w24 (length b) b, and_then) (ground (arith, take_all b))

-- A well-formed ClientHello that fits one record, with any other extensions before the server name
-- and any bytes behind it, is parsed to its host name, whatever follows the record.
pub try_parse-encode_hello :
    (h : Hello) (rest : Bytes)
    → IsWellFormed h
    → try_parse (encode_hello h ++ rest) ≡ ok (complete h.server_name)
try_parse-encode_hello h rest w =
    try_parse_record (encode_message h) rest (omega arith) w.record_size
    ∙ parse_record_message (encode_body h)
    ∙ ap complete_with (parse-encode_body h w)
