-- ===== src/Reach/Wire/Bounds.antt =====
-- What the adapter accepts is bounded, and reading takes bytes off the front only.
use vulos_relay.Base.{
  ℕ, zero, suc, ◌+◌, ◌≤◌, ◌≡◌, ◌≢◌, refl, subst, Bool, true, false, List, [], ◌∷◌, arith, Bytes,
  bytes_eq, length, any, All, All-append, is_utf8, ltb, ◌==◌, Bool-cases, length-take,
  length-append, inl, inr, not,
}
use vulos_relay.Base.Result.{ok}
use vulos_relay.Reach.Reader.{Reader, ◌>>=◌, ◌>>◌, pure}
use vulos_relay.Reach.Reader.Gives.{Post, Gives, Gives-bind, Gives-pure}
use vulos_relay.Reach.Registry.{Registration}
use vulos_relay.Reach.Wire.{
  TunnelError, refuse_if, max_registration_field_bytes, max_registration_services, read_u16,
  read_exact, read_length_prefixed_string, insert_service, read_services, read_registration,
}
use vulos_relay.Reach.Wire.RoundTrip.{IsField}

module _ {B : Type 0} {Q : B → Type 0} where
  Gives-refuse :
      (b : Bool) (why : Bytes) (k : Reader TunnelError B)
      → (b ≡ false → Gives Q k)
      → Gives Q (refuse_if b why >> k)
  unfolding ◌>>=◌ ◌>>◌ refuse_if
  Gives-refuse true why k next = record { run = λ s. tt }
  Gives-refuse false why k next = record { run = λ s. (next refl).run s }

Gives-u16 : Gives (λ n. Unit {0}) read_u16
unfolding read_u16
Gives-u16 = record { run = go }
  where
    go : (s : Bytes) → Post (λ n. Unit {0}) (read_u16 s)
    go (a ∷ b ∷ s) = tt
    go (a ∷ []) = tt
    go [] = tt

Gives-exact : (n : ℕ) → Gives (λ buf. length buf ≡ n) (read_exact n)
unfolding read_exact
Gives-exact n = record {
  run = λ s. elim (Bool-cases (ltb (length s) n)) [
    | inl short ↦ rw short tt
    | inr long ↦ rw long (let short = long in ground (arith, length-take n s))
  ];
}

read_string-IsField : Gives IsField read_length_prefixed_string
unfolding read_length_prefixed_string
read_string-IsField = Gives-bind Gives-u16 λ len _.
    Gives-refuse (ltb max_registration_field_bytes len) _ _ λ small.
      Gives-bind (Gives-exact len) λ buf e.
        Gives-refuse (not (is_utf8 buf)) _ (pure buf)
          λ valid. Gives-pure buf (ground arith, ground arith)

insert_service-All :
    (P : Bytes → Type 0) (svc : Bytes) (set : List Bytes)
    → P svc
    → All P set
    → All P (insert_service svc set)
unfolding insert_service
insert_service-All P svc set h hs = elim (Bool-cases (any (λ t. bytes_eq.beq t svc) set)) [
  | inl old ↦ rw old hs
  | inr new ↦ rw new (All-append P set (svc ∷ []) hs (h, tt))
]

length-insert_service :
    (svc : Bytes) (set : List Bytes) → length (insert_service svc set) ≤ length set + 1
unfolding insert_service
length-insert_service svc set = ground (arith, length-append set (svc ∷ []))

abbrev AreBounded : ℕ → List Bytes → Type 0
AreBounded n svcs = All IsField svcs × (length svcs ≤ n)

read_services_bounds :
    (n m : ℕ) (set : List Bytes)
    → All IsField set
    → length set + n ≤ m
    → Gives (AreBounded m) (read_services n set)
unfolding read_services
read_services_bounds zero m set hs le = Gives-pure set (hs, omega arith)
read_services_bounds (suc n) m set hs le = Gives-bind read_string-IsField λ svc field.
    read_services_bounds n m (insert_service svc set) (insert_service-All IsField svc set field hs)
      (omega (arith, length-insert_service svc set))

-- A name and services within the bounds of the frame.
abbrev pub IsBounded : Registration → Type 0
IsBounded r =
    (length r.name ≢ 0)
    × IsField r.name
    × All IsField r.allowed_services
    × (length r.allowed_services ≤ max_registration_services)

Gives-registration : Gives IsBounded read_registration
unfolding read_registration
Gives-registration = Gives-bind read_string-IsField λ name field.
    Gives-refuse (length name == 0) _ _ λ named. Gives-bind Gives-u16 λ count _.
      Gives-refuse (ltb max_registration_services count) _ _ λ few.
        Gives-bind (read_services_bounds count max_registration_services [] tt (ground arith))
          λ svcs bounded.
            Gives-pure (record { name = name; allowed_services = svcs })
              (ground arith, field, bounded.0, bounded.1)

-- A registration that is read, whatever the box sends, has a name that is not empty, of at most 4096
-- bytes, at most 256 services of at most 4096 bytes each, and all of these are valid UTF-8.
read_registration_bounds :
    (s s' : Bytes) (r : Registration) → read_registration s ≡ ok (r, s') → IsBounded r
read_registration_bounds s s' r h = subst (Post IsBounded) h (Gives-registration.run s)
