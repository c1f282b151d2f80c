-- ===== src/Reach/Wire/RoundTrip.antt =====
-- What a box writes is what the adapter reads.
use vulos_relay.Base.{
  ℕ, ◌%◌, ◌≤◌, ◌≡◌, ◌≢◌, ap, ◌∙◌, true, false, List, [], ◌∷◌, ◌++◌, append_assoc, append-nil, arith,
  Bytes, bytes_eq, length, ltb, ◌==◌, any, is_utf8, length-append, take-append-length,
  drop-append-length,
}
use vulos_relay.Base.Result.{ok}
use vulos_relay.Reach.Reader.{◌>>=◌, ◌>>◌, pure}
use vulos_relay.Reach.Registry.{Registration}
use vulos_relay.Reach.Wire.{
  refuse_if, max_registration_field_bytes, max_registration_services, read_u16, read_exact,
  read_length_prefixed_string, insert_service, read_services, read_registration, write_u16,
  write_string, write_services, write_registration,
}

read_u16-write_u16 : (n : ℕ) (rest : Bytes) → read_u16 (write_u16 n ++ rest) ≡ ok (n % 65536, rest)
unfolding read_u16 write_u16
read_u16-write_u16 n rest = ap (λ k. ok (k, rest)) (omega arith)

pub read_exact-append : (s rest : Bytes) → read_exact (length s) (s ++ rest) ≡ ok (s, rest)
unfolding read_exact
read_exact-append s rest =
    ground (arith, length-append s rest, take-append-length s rest, drop-append-length s rest)

-- A field that the adapter accepts.
abbrev pub IsField : Bytes → Type 0
IsField s = (length s ≤ max_registration_field_bytes) × (is_utf8 s ≡ true)

read-write_string :
    (s rest : Bytes)
    → IsField s
    → read_length_prefixed_string (write_string s ++ rest) ≡ ok (s, rest)
unfolding read_length_prefixed_string write_string ◌>>=◌ ◌>>◌ refuse_if pure
read-write_string s rest h =
    rw
      (append_assoc (write_u16 (length s)) s rest, read_u16-write_u16 (length s) (s ++ rest), ◌>>=◌)
      (rw (small, fits, ◌>>=◌) (rw (small, read_exact-append s rest, ◌>>=◌) (rw h.1)))
  where
    small : length s % 65536 ≡ length s
    small = omega arith

    fits : ltb max_registration_field_bytes (length s) ≡ false
    fits = ground arith

-- The services, each a field and none of them twice, also not in `set`.
abbrev pub AreNew : List Bytes → List Bytes → Type 0
AreNew set [] = Unit
AreNew set (svc ∷ svcs) =
    (any (λ t. bytes_eq.beq t svc) set ≡ false) × IsField svc × AreNew (set ++ (svc ∷ [])) svcs

read-write_services :
    (svcs set : List Bytes) (rest : Bytes)
    → AreNew set svcs
    → read_services (length svcs) set (write_services svcs ++ rest) ≡ ok (set ++ svcs, rest)
unfolding read_services write_services insert_service ◌>>=◌ pure
read-write_services [] set rest h = rw append-nil
read-write_services (svc ∷ svcs) set rest h =
    rw
      (
        append_assoc (write_string svc) (write_services svcs) rest,
        read-write_string svc (write_services svcs ++ rest) h.1,
        ◌>>=◌,
        h.0,
      )
      (read-write_services svcs (set ++ (svc ∷ [])) rest h.2
        ∙ ap (λ k. ok (k, rest)) (append_assoc set (svc ∷ []) svcs))

-- A registration that the adapter accepts: a name that is not empty, at most 256 services, none
-- twice, each of these valid UTF-8 of at most 4096 bytes.
pub record IsAcceptable (r : Registration) : Type 0 where
  pub named : length r.name ≢ 0
  pub name_field : IsField r.name
  pub few : length r.allowed_services ≤ max_registration_services
  pub services : AreNew [] r.allowed_services

-- Reading back a written registration that the adapter accepts gives the same registration, and
-- leaves exactly the bytes that follow the frame.
pub read-write_registration :
    (r : Registration) (rest : Bytes)
    → IsAcceptable r
    → read_registration (write_registration r ++ rest) ≡ ok (r, rest)
unfolding read_registration write_registration ◌>>=◌ ◌>>◌ refuse_if pure
read-write_registration r rest h =
    rw (append_assoc (write_string r.name) _ rest, read-write_string r.name _ h.name_field, ◌>>=◌)
      (rw (named, ◌>>=◌)
        (rw
          (
            append_assoc (write_u16 (length r.allowed_services)) _ rest,
            read_u16-write_u16 (length r.allowed_services) _,
            ◌>>=◌,
          )
          (rw (small, few, ◌>>=◌)
            (rw (small, read-write_services r.allowed_services [] rest h.services, ◌>>=◌)))))
  where
    named : (length r.name == 0) ≡ false
    named = let n = h.named in ground arith

    small : length r.allowed_services % 65536 ≡ length r.allowed_services
    small = let f = h.few in omega arith

    few : ltb max_registration_services (length r.allowed_services) ≡ false
    few = let f = h.few in ground arith
