-- ===== src/Reach/Registry.antt =====
-- The registration table of crates/reachability-adapter/src/tunnel.rs: `TunnelRegistry` and
-- `RegistrationGuard`. A method runs under the mutex, so it is one step. `Handle` stands for a
-- `TunnelHandle`, the dependency's session.
pub mod Ownership
pub mod Names
use vulos_relay.Base.{
  ℕ, ◌+◌, ◌%◌, ◌^◌, Bool, false, not, Option, none, some, List, [], ◌∷◌, map, Bytes, bytes_eq, leb,
  ◌&&◌, ◌==◌, if◌then◌else◌,
}
use vulos_relay.Base.Dict.{Dict, get, insert, remove}
use vulos_relay.Base.Text.{to_ascii_lowercase}
use vulos_relay.Base.Words.{wrap_add}
use vulos_relay.Base.Result.{Result, ok, err}

-- The services are a set, as a list without repetition.
pub record Registration : Type 0 where
  pub name : Bytes
  pub allowed_services : List Bytes

pub data RegistryError : Type 0 where
  owned_by_different_identity : Bytes → RegistryError

module _ (Handle : Type 0) where
  pub record RegisteredTunnel : Type 0 where
    pub handle : Handle
    pub allowed_services : List Bytes
    pub owner_ik : Bytes
    pub generation : ℕ

  pub record RegistryState : Type 0 where
    pub tunnels : Dict Bytes RegisteredTunnel
    pub next_generation : ℕ

  pub record TunnelLookup : Type 0 where
    pub handle : Handle
    pub allowed_services : List Bytes

-- What a guard remembers of its registration.
pub record RegistrationGuard : Type 0 where
  pub name : Bytes
  pub generation : ℕ

module _ {Handle : Type 0} where
  unfoldable pub new : RegistryState Handle
  new = record { tunnels = []; next_generation = 0 }

  abbrev owned_by_another : Option (RegisteredTunnel Handle) → Bytes → Bool
  owned_by_another none owner_ik = false
  owned_by_another (some existing) owner_ik = not (bytes_eq.beq existing.owner_ik owner_ik)

  unfoldable pub register :
      RegistryState Handle
      → Registration
      → Bytes
      → Handle
      → Result RegistryError RegistrationGuard × RegistryState Handle
  register st registration owner_ik handle =
      if owned_by_another (get st.tunnels registration.name) owner_ik
      then (err (owned_by_different_identity registration.name), st)
      else (let generation = st.next_generation in
          (
            ok (record { name = registration.name; generation = generation }),
            record {
              tunnels = insert st.tunnels registration.name (record {
                handle = handle;
                allowed_services = registration.allowed_services;
                owner_ik = owner_ik;
                generation = generation;
              });
              next_generation = wrap_add st.next_generation 1;
            },
          ))

  abbrev to_lookup : Option (RegisteredTunnel Handle) → Option (TunnelLookup Handle)
  to_lookup none = none
  to_lookup (some t) = some (record { handle = t.handle; allowed_services = t.allowed_services })

  unfoldable pub lookup : RegistryState Handle → Bytes → Option (TunnelLookup Handle)
  unfolding to_ascii_lowercase
  lookup st sni_name = to_lookup (get st.tunnels (to_ascii_lowercase sni_name))

  abbrev is_generation : Option (RegisteredTunnel Handle) → ℕ → Bool
  is_generation none generation = false
  is_generation (some existing) generation = existing.generation == generation

  -- What dropping a guard does, by `deregister`.
  unfoldable pub deregister : RegistryState Handle → RegistrationGuard → RegistryState Handle
  deregister st g =
      if is_generation (get st.tunnels g.name) g.generation
      then record st { tunnels = remove st.tunnels g.name }
      else st
