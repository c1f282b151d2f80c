-- ===== src/Reach/Wire.antt =====
-- The registration frame of crates/reachability-adapter/src/tunnel.rs. A socket is the bytes that
-- are still to come; reading past their end is the I/O error of `read_exact`.
pub mod RoundTrip
pub mod Bounds
use vulos_relay.Base.{
  ℕ, zero, suc, ◌+◌, ◌*◌, ◌/◌, ◌%◌, Bool, not, List, [], ◌∷◌, ◌++◌, Bytes, bytes_eq, codes, ltb,
  ◌==◌, if◌then◌else◌, length, take, drop, any, is_utf8,
}
use vulos_relay.Base.Result.{Result, ok, err}
use vulos_relay.Reach.Reader.{Reader, ◌>>=◌, ◌>>◌, pure}
use vulos_relay.Reach.Registry.{Registration}

-- The causes that the dependencies report are left out.
pub data TunnelError : Type 0 where
  closed yamux io : TunnelError
  malformed_registration : Bytes → TunnelError

unfoldable pub refuse_if : Bool → Bytes → Reader TunnelError (Unit {0})
refuse_if b why s = if b then err (malformed_registration why) else ok (tt, s)

abbrev pub max_registration_field_bytes : ℕ
max_registration_field_bytes = 4096

abbrev pub max_registration_services : ℕ
max_registration_services = 256

unfoldable pub read_u16 : Reader TunnelError ℕ
read_u16 (hi ∷ lo ∷ s) = ok (hi * 256 + lo, s)
read_u16 _ = err io

unfoldable pub read_exact : ℕ → Reader TunnelError Bytes
read_exact n s = if ltb (length s) n then err io else ok (take n s, drop n s)

unfoldable pub read_length_prefixed_string : Reader TunnelError Bytes
unfolding ◌>>=◌ ◌>>◌ refuse_if pure
read_length_prefixed_string = do
  len ← read_u16
  refuse_if (ltb max_registration_field_bytes len) (codes "field exceeds max length")
  buf ← read_exact len
  refuse_if (not (is_utf8 buf)) (codes "field is not UTF-8")
  pure buf

-- `HashSet::insert`
unfoldable pub insert_service : Bytes → List Bytes → List Bytes
insert_service svc set = if any (λ t. bytes_eq.beq t svc) set then set else set ++ (svc ∷ [])

-- The loop over the declared services, with the set so far.
unfoldable pub read_services : ℕ → List Bytes → Reader TunnelError (List Bytes)
unfolding ◌>>=◌ ◌>>◌ refuse_if pure
read_services zero set = pure set
read_services (suc n) set = do
  svc ← read_length_prefixed_string
  read_services n (insert_service svc set)

unfoldable pub read_registration : Reader TunnelError Registration
unfolding ◌>>=◌ ◌>>◌ refuse_if pure
read_registration = do
  name ← read_length_prefixed_string
  refuse_if (length name == 0) (codes "name is empty")
  service_count ← read_u16
  refuse_if (ltb max_registration_services service_count) (codes "too many declared services")
  allowed_services ← read_services service_count []
  pure (record { name = name; allowed_services = allowed_services })

-- `write_u16` of a length cast to `u16`, which drops its high bits.
unfoldable pub write_u16 : ℕ → Bytes
write_u16 len = (len % 65536 / 256) ∷ (len % 256) ∷ []

unfoldable pub write_string : Bytes → Bytes
unfolding write_u16
write_string s = write_u16 (length s) ++ s

unfoldable pub write_services : List Bytes → Bytes
unfolding write_string
write_services [] = []
write_services (svc ∷ svcs) = write_string svc ++ write_services svcs

unfoldable pub write_registration : Registration → Bytes
unfolding write_string write_services
write_registration r =
    write_string r.name
    ++ (write_u16 (length r.allowed_services) ++ write_services r.allowed_services)
