-- ===== src/Tests/Peeking.antt =====
-- A ClientHello, peeked at in several ways.
use vulos_relay.Base.{
  ℕ, zero, suc, ◌≡◌, ◌≢◌, refl, List, [], ◌∷◌, ◌++◌, arith, Bytes, codes, is_utf8,
}
use vulos_relay.Base.Result.{ok}
use vulos_relay.Reach.Sni.{
  SocketRead, received, ClientHelloPeek, complete, incomplete, try_parse, peek_client_hello,
}
use vulos_relay.Reach.Sni.Peek.{bytes_of, peek_faithful, peek_chunking, peek_past_record}
use vulos_relay.Reach.Sni.RoundTrip.{Hello, IsWellFormed, encode_hello, try_parse-encode_hello}

abbrev pub zeros : ℕ → Bytes
zeros zero = []
zeros (suc n) = 0 ∷ zeros n

abbrev pub box : Bytes
box = codes "box"

abbrev pub hello : Hello
hello = record {
  version = 3 ∷ 3 ∷ [];
  random = zeros 32;
  session_id = [];
  cipher_suites = 0x13 ∷ 1 ∷ [];
  compression_methods = 0 ∷ [];
  others = (16, 1 ∷ 2 ∷ []) ∷ [];
  server_name = box;
  more = [];
}

hello-IsWellFormed : IsWellFormed hello
unfolding is_utf8
hello-IsWellFormed = record {
  version_size = refl;
  random_size = refl;
  ciphers_size = omega arith;
  others_kind = ((omega arith, omega arith, omega arith), tt);
  host = (omega arith, refl, omega arith);
  record_size = omega arith;
}

try_parse-encode_hello_example : try_parse (encode_hello hello ++ (1 ∷ [])) ≡ ok (complete box)
try_parse-encode_hello_example = try_parse-encode_hello hello (1 ∷ []) hello-IsWellFormed

abbrev pub hello_bytes : Bytes
hello_bytes = encode_hello hello

parsed : try_parse hello_bytes ≡ ok (complete box)
parsed = try_parse-encode_hello hello [] hello-IsWellFormed

answered : try_parse hello_bytes ≢ ok incomplete
answered = rw parsed (λ e. cc)

abbrev left : List SocketRead
left = received (1 ∷ 2 ∷ []) ∷ []

abbrev peeked : ClientHelloPeek
peeked = record { server_name = box; raw = hello_bytes }

abbrev peeked_more : ClientHelloPeek
peeked_more = record { server_name = box; raw = hello_bytes ++ (1 ∷ 2 ∷ []) }

peek_past_record_example :
    peek_client_hello (received (hello_bytes ++ (1 ∷ 2 ∷ [])) ∷ []) ≡ ok (peeked_more, [])
peek_past_record_example = peek_past_record hello_bytes (1 ∷ 2 ∷ []) box [] parsed

two_reads : peek_client_hello (received hello_bytes ∷ left) ≡ ok (peeked, left)
two_reads = peek_past_record hello_bytes [] box left parsed

one_read : peek_client_hello (received (hello_bytes ++ (1 ∷ 2 ∷ [])) ∷ []) ≡ ok (peeked_more, [])
one_read = peek_past_record hello_bytes (1 ∷ 2 ∷ []) box [] parsed

peek_faithful_example :
    (hello_bytes ++ bytes_of left ≡ bytes_of (received hello_bytes ∷ left))
    × (try_parse hello_bytes ≡ ok (complete box))
peek_faithful_example = peek_faithful (received hello_bytes ∷ left) left peeked two_reads

peek_chunking_example : peeked.server_name ≡ peeked_more.server_name
peek_chunking_example =
    peek_chunking (received hello_bytes ∷ left) left (received (hello_bytes ++ (1 ∷ 2 ∷ [])) ∷ [])
      [] peeked peeked_more refl two_reads one_read
