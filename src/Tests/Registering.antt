-- ===== src/Tests/Registering.antt =====
-- Registrations and an ingress connection on small inputs.
use vulos_relay.Base.{
  ℕ, ◌≡◌, ◌≢◌, inl, refl, Option, none, some, List, [], ◌∷◌, ◌++◌, arith, Bytes, bytes_eq,
  bytes_beq, codes, is_utf8,
}
use vulos_relay.Base.Text.{to_ascii_lowercase, to_lower}
use vulos_relay.Base.Dict.{get, insert}
use vulos_relay.Base.Result.{ok, err}
use vulos_relay.Reach.Registry.{
  Registration, RegistryState, RegistrationGuard, RegisteredTunnel, owned_by_different_identity,
  register, lookup, deregister,
}
use vulos_relay.Reach.Registry.Ownership
use vulos_relay.Reach.Registry.Ownership.{
  Call, registers, drops, register_keeps, refresh_survives_drop,
}
use vulos_relay.Reach.Registry.Names.{lookup-register_upper}
use vulos_relay.Reach.Wire.{TunnelError, io, read_registration, write_registration}
use vulos_relay.Reach.Wire.RoundTrip.{IsAcceptable, read-write_registration}
use vulos_relay.Reach.Sni.{received}
use vulos_relay.Reach.Ingress.{Ends, handle_ingress_connection, ingress_outcome}
use vulos_relay.Tests.Peeking.{box, hello_bytes}

abbrev pub registration : Registration
registration = record { name = box; allowed_services = codes "dav" ∷ [] }

abbrev loud : Registration
loud = record { name = codes "BOX"; allowed_services = [] }

abbrev refreshed : Registration
refreshed = record { name = box; allowed_services = codes "mail" ∷ [] }

abbrev pub ik₁ : Bytes
ik₁ = 1 ∷ []

abbrev pub ik₂ : Bytes
ik₂ = 2 ∷ []

abbrev pub entry : Registration → ℕ → ℕ → RegisteredTunnel ℕ
entry r handle generation = record {
  handle = handle;
  allowed_services = r.allowed_services;
  owner_ik = ik₁;
  generation = generation;
}

abbrev pub start : RegistryState ℕ
start = record { tunnels = []; next_generation = 0 }

abbrev table₁ : RegistryState ℕ
table₁ = record { tunnels = (box, entry registration 7 0) ∷ []; next_generation = 1 }

abbrev table₂ : RegistryState ℕ
table₂ = record { tunnels = (box, entry refreshed 8 1) ∷ []; next_generation = 2 }

abbrev pub guard : ℕ → RegistrationGuard
guard generation = record { name = box; generation = generation }

registered : register start registration ik₁ 7 ≡ (ok (guard 0), table₁)
unfolding register get insert bytes_beq
registered = refl

registered_again : register table₁ refreshed ik₁ 8 ≡ (ok (guard 1), table₂)
unfolding register get insert bytes_beq
registered_again = refl

abbrev calls : List (Call ℕ)
calls =
    registers registration ik₂ 9
    ∷ drops (record { name = codes "other"; generation = 5 })
    ∷ registers refreshed ik₁ 8
    ∷ []

other_name : codes "other" ≢ box
other_name = ground arith

pub keys_differ : ik₂ ≢ ik₁
keys_differ = ground arith

register_keeps_example :
    register (Ownership.run table₁ calls) registration ik₂ 9
    ≡ (err (owned_by_different_identity box), Ownership.run table₁ calls)
register_keeps_example =
    register_keeps start table₁ registration registration ik₁ ik₂ 7 9 (guard 0) calls registered
      (omega arith) (tt, (inl other_name, (tt, tt))) refl keys_differ

refresh_survives_drop_example :
    (deregister table₂ (guard 0) ≡ table₂) × (get table₂.tunnels box ≡ some (entry refreshed 8 1))
refresh_survives_drop_example =
    refresh_survives_drop start table₁ table₂ registration refreshed ik₁ 7 8 (guard 0) (guard 1)
      registered refl registered_again (omega arith)

same_lower : to_ascii_lowercase box ≡ to_ascii_lowercase (codes "BOX")
unfolding to_ascii_lowercase to_lower
same_lower = refl

not_lower : to_ascii_lowercase (codes "BOX") ≢ codes "BOX"
unfolding to_ascii_lowercase to_lower
not_lower = ground arith

lookup-register_upper_example :
    lookup (register start loud ik₁ 7).1 (codes "BOX") ≡ lookup start (codes "BOX")
lookup-register_upper_example = lookup-register_upper start loud ik₁ 7 (codes "BOX") not_lower

pub registration-IsAcceptable : IsAcceptable registration
unfolding is_utf8
registration-IsAcceptable = record {
  named = omega arith;
  name_field = (omega arith, refl);
  few = omega arith;
  services = (refl, (omega arith, refl), tt);
}

read-write_registration_example :
    read_registration (write_registration registration ++ (9 ∷ [])) ≡ ok (registration, 9 ∷ [])
read-write_registration_example =
    read-write_registration registration (9 ∷ []) registration-IsAcceptable

frame_read :
    read_registration (write_registration registration ++ (9 ∷ [])) ≡ ok (registration, 9 ∷ [])
frame_read = read-write_registration registration (9 ∷ []) registration-IsAcceptable

-- A tunnel that opens every stream, and one whose writes fail.
abbrev opening : ℕ → Option TunnelError
opening handle = none

abbrev writing : ℕ → Bytes → Option TunnelError
writing handle bytes = some io

ingress_outcome_example :
    Ends opening writing table₁
      (received hello_bytes ∷ [])
      (codes "dav")
      (handle_ingress_connection opening writing table₁ (received hello_bytes ∷ []) (codes "dav"))
ingress_outcome_example =
    ingress_outcome opening writing table₁ (received hello_bytes ∷ []) (codes "dav")
