-- ===== src/Reach/Sni.antt =====
-- The ClientHello parser of crates/reachability-adapter/src/sni.rs. A cursor is the bytes that are
-- left of its buffer.
pub mod Rounds
pub mod Peek
pub mod RoundTrip
pub mod Encode
use vulos_relay.Base.{
  ℕ, zero, suc, ◌+◌, ◌*◌, ◌≡◌, Bool, Option, none, some, List, [], ◌∷◌, ◌++◌, Bytes, codes, ltb,
  leb, ◌==◌, not, ◌||◌, if◌then◌else◌, length, take, drop, is_utf8,
}
use vulos_relay.Base.Result.{Result, ok, err}
use vulos_relay.Reach.Reader.{Reader, ◌>>=◌, ◌>>◌, pure}

pub data SniError : Type 0 where
  not_handshake : SniError
  malformed : Bytes → SniError
  no_sni empty_sni too_large unexpected_eof io : SniError

abbrev pub max_client_hello_bytes : ℕ
max_client_hello_bytes = 16 * 1024

-- `Cursor::take`, `Cursor::u8`, `Cursor::u16` and `Cursor::u24`
unfoldable pub take_bytes : ℕ → Reader SniError Bytes
take_bytes n s =
    if ltb (length s) n then err (malformed (codes "truncated field")) else ok (take n s, drop n s)

unfoldable pub take_u8 : Reader SniError ℕ
take_u8 (a ∷ s) = ok (a, s)
take_u8 _ = err (malformed (codes "truncated field"))

unfoldable pub take_u16 : Reader SniError ℕ
take_u16 (a ∷ b ∷ s) = ok (a * 256 + b, s)
take_u16 _ = err (malformed (codes "truncated field"))

unfoldable pub take_u24 : Reader SniError ℕ
take_u24 (a ∷ b ∷ c ∷ s) = ok ((a * 256 + b) * 256 + c, s)
take_u24 _ = err (malformed (codes "truncated field"))

-- The test of a `host_name` entry.
unfoldable pub host_name : Bytes → Result SniError Bytes
host_name name =
    if length name == 0
    then err empty_sni
    else if is_utf8 name
    then ok name
    else err (malformed (codes "server_name is not valid UTF-8"))

-- What a round of a loop found: the answer, or the bytes to go on with.
pub data Round : Type 0 where
  answer : Result SniError Bytes → Round
  go_on : Bytes → Round

abbrev pub to_round : {A : Type 0} → Result SniError (A × Bytes) → (A → Bytes → Round) → Round
to_round (ok (a, s)) f = f a s
to_round (err e) f = answer (err e)

-- One entry of the server name list.
unfoldable pub name_entry : Bytes → Round
name_entry s = to_round (take_u8 s) λ name_type s₁. to_round (take_u16 s₁) λ name_len s₂.
    to_round (take_bytes name_len s₂)
      λ name s₃. if name_type == 0 then answer (host_name name) else go_on s₃

-- One extension; `on_name` reads the data of a `server_name` extension.
unfoldable pub extension : (Bytes → Result SniError Bytes) → Bytes → Round
extension on_name s = to_round (take_u16 s) λ ext_type s₁. to_round (take_u16 s₁) λ ext_len s₂.
    to_round (take_bytes ext_len s₂)
      λ ext_data s₃. if ext_type == 0 then answer (on_name ext_data) else go_on s₃

-- `while c.remaining() > 0 { … }`, and no SNI after it; `none` means that the fuel ran out.
unfoldable pub scan : ℕ → (Bytes → Round) → Bytes → Option (Result SniError Bytes)
scan fuel round [] = some (err no_sni)
scan zero round (b ∷ s) = none
scan (suc fuel) round (b ∷ s) = elim (round (b ∷ s)) [
  | answer r ↦ some r
  | go_on s' ↦ scan fuel round s'
]

-- Every round takes a byte at least, so the length is fuel enough and the default is not used.
abbrev pub or_no_sni : Option (Result SniError Bytes) → Result SniError Bytes
or_no_sni none = err no_sni
or_no_sni (some r) = r

unfoldable pub scan_all : (Bytes → Round) → Bytes → Result SniError Bytes
scan_all round s = or_no_sni (scan (length s) round s)

abbrev and_then :
    {A B : Type 0}
    → Result SniError (A × Bytes)
    → (A → Bytes → Result SniError B)
    → Result SniError B
and_then (ok (a, s)) f = f a s
and_then (err e) f = err e

unfoldable pub parse_server_name_extension : Bytes → Result SniError Bytes
parse_server_name_extension ext_data =
    and_then (take_u16 ext_data)
      λ list_len s. and_then (take_bytes list_len s) λ list _. scan_all name_entry list

-- The fixed part of the ClientHello body.
unfoldable pub skip_fixed : Reader SniError (Unit {0})
unfolding ◌>>=◌ ◌>>◌ pure
skip_fixed = do
  take_bytes 2
  take_bytes 32
  session_id_len ← take_u8
  take_bytes session_id_len
  cipher_suites_len ← take_u16
  take_bytes cipher_suites_len
  compression_methods_len ← take_u8
  take_bytes compression_methods_len
  pure tt

unfoldable pub parse_client_hello_body : Bytes → Result SniError Bytes
parse_client_hello_body body = and_then (skip_fixed body) λ _ s.
    if length s == 0
    then err no_sni
    else and_then (take_u16 s) λ extensions_len s₁.
      and_then (take_bytes extensions_len s₁)
        λ extensions _. scan_all (extension parse_server_name_extension) extensions

pub data Parsed : Type 0 where
  incomplete : Parsed
  complete : Bytes → Parsed

abbrev complete_with : Result SniError Bytes → Result SniError Parsed
complete_with (ok name) = ok (complete name)
complete_with (err e) = err e

-- The handshake message in a record.
unfoldable pub parse_record : Bytes → Result SniError Parsed
parse_record r = and_then (take_u8 r) λ hs_type s.
    if not (hs_type == 1)
    then err (malformed (codes "first handshake message is not ClientHello"))
    else and_then (take_u24 s) λ hs_len s₁.
      if ltb (length s₁) hs_len
      then err (malformed (codes "ClientHello spans multiple TLS records (unsupported)"))
      else complete_with (parse_client_hello_body (take hs_len s₁))

unfoldable pub try_parse : Bytes → Result SniError Parsed
try_parse (content_type ∷ v₁ ∷ v₂ ∷ l₁ ∷ l₂ ∷ rest) =
    if not (content_type == 0x16)
    then err not_handshake
    else (let record_len = l₁ * 256 + l₂ in
        if record_len == 0 || ltb 0x4000 record_len
        then err (malformed (codes "record length out of range"))
        else if ltb (length rest) record_len
        then ok incomplete
        else parse_record (take record_len rest))
try_parse _ = ok incomplete

-- One `read` of the socket: some bytes (none at the end of the stream), or an error.
pub data SocketRead : Type 0 where
  received : Bytes → SocketRead
  failed : SocketRead

pub record ClientHelloPeek : Type 0 where
  pub server_name : Bytes
  pub raw : Bytes

-- The loop of `peek_client_hello`, with the buffer so far, over the reads that the socket has to
-- give; the reads that it leaves come back.
unfoldable pub peek_from :
    Bytes → List SocketRead → Result SniError (ClientHelloPeek × List SocketRead)
peek_from buf [] = elim (try_parse buf) [
  | err e ↦ err e
  | ok (complete name) ↦ ok (record { server_name = name; raw = buf }, [])
  | ok incomplete ↦
      if leb max_client_hello_bytes (length buf) then err too_large else err unexpected_eof
]
peek_from buf (failed ∷ reads) = elim (try_parse buf) [
  | err e ↦ err e
  | ok (complete name) ↦ ok (record { server_name = name; raw = buf }, failed ∷ reads)
  | ok incomplete ↦ if leb max_client_hello_bytes (length buf) then err too_large else err io
]
peek_from buf (received chunk ∷ reads) = elim (try_parse buf) [
  | err e ↦ err e
  | ok (complete name) ↦ ok (record { server_name = name; raw = buf }, received chunk ∷ reads)
  | ok incomplete ↦
      let rest = peek_from (buf ++ chunk) reads in
      if leb max_client_hello_bytes (length buf)
      then err too_large
      else if length chunk == 0
      then err unexpected_eof
      else rest
]

unfoldable pub peek_client_hello :
    List SocketRead → Result SniError (ClientHelloPeek × List SocketRead)
unfolding peek_from
peek_client_hello = peek_from []
