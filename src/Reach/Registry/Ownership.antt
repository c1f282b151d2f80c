-- ===== src/Reach/Registry/Ownership.antt =====
-- Who holds a name: no other identity takes it over, and the drop of a guard that a refresh has
-- replaced does not take it away.
use vulos_relay.Base.{
  ℕ, ◌+◌, ◌^◌, ◌≤◌, ◌<◌, ◌≡◌, ◌≢◌, ◌⊎◌, Option, none, some, List, [], ◌∷◌, arith, Bytes, bytes_eq,
  bytes_beq_iff, length, All, Bool-cases, inl, inr,
}
use vulos_relay.Base.Dict.{get, get-insert, get-insert_self, get-remove}
use vulos_relay.Base.Words.{wrap_add}
use vulos_relay.Base.Result.{ok, err}
use vulos_relay.Reach.Registry.{
  Registration, RegistryState, RegisteredTunnel, RegistrationGuard, owned_by_different_identity,
  register, deregister, owned_by_another,
}

pub data Call (Handle : Type 0) : Type 0 where
  registers : Registration → Bytes → Handle → Call Handle
  drops : RegistrationGuard → Call Handle

module _ {Handle : Type 0} where
  unfoldable pub after : RegistryState Handle → Call Handle → RegistryState Handle
  after st (registers registration owner_ik handle) = (register st registration owner_ik handle).1
  after st (drops g) = deregister st g

  unfoldable pub run : RegistryState Handle → List (Call Handle) → RegistryState Handle
  run st [] = st
  run st (c ∷ cs) = run (after st c) cs

  -- A call that drops no guard of the name from this generation on.
  abbrev pub IsStale : Bytes → ℕ → Call Handle → Type 0
  IsStale name generation (registers registration owner_ik handle) = Unit {0}
  IsStale name generation (drops g) = (g.name ≢ name) ⊎ (g.generation < generation)

  abbrev pub IsHeld : Bytes → Bytes → ℕ → ℕ → Option (RegisteredTunnel Handle) → Type 0
  IsHeld name owner_ik generation next none = ⊥
  IsHeld name owner_ik generation next (some t) =
      (t.owner_ik ≡ owner_ik) × (generation ≤ t.generation) × (t.generation < next)

  -- The name is held by the identity, under a generation not before this one.
  abbrev pub Holds : RegistryState Handle → Bytes → Bytes → ℕ → Type 0
  Holds st name owner_ik generation =
      IsHeld name owner_ik generation st.next_generation (get st.tunnels name)

  register-Holds :
      (st : RegistryState Handle) (registration : Registration) (ik : Bytes) (handle : Handle)
      (name owner_ik : Bytes) (generation : ℕ)
      → st.next_generation + 1 < 2 ^ 64
      → Holds st name owner_ik generation
      → Holds (register st registration ik handle).1 name owner_ik generation
  unfolding register
  register-Holds st registration ik handle name owner_ik generation room h = ground (
    arith,
    bytes_beq_iff registration.name name,
    get-insert st.tunnels registration.name name (record {
      handle = handle;
      allowed_services = registration.allowed_services;
      owner_ik = ik;
      generation = st.next_generation;
    }),
    bytes_beq_iff owner_ik ik,
  )

  deregister-Holds :
      (st : RegistryState Handle) (g : RegistrationGuard) (name owner_ik : Bytes) (generation : ℕ)
      → IsStale name generation (drops g)
      → Holds st name owner_ik generation
      → Holds (deregister st g) name owner_ik generation
  unfolding deregister
  deregister-Holds st g name owner_ik generation stale h =
      ground (arith, bytes_beq_iff g.name name, get-remove st.tunnels g.name name)

  after-next_generation :
      (st : RegistryState Handle) (c : Call Handle)
      → (after st c).next_generation ≤ st.next_generation + 1
  unfolding after register deregister
  after-next_generation st (registers registration ik handle) = ground arith
  after-next_generation st (drops g) = ground arith

  run-Holds :
      (cs : List (Call Handle)) (st : RegistryState Handle) (name owner_ik : Bytes) (generation : ℕ)
      → st.next_generation + length cs < 2 ^ 64
      → All (IsStale name generation) cs
      → Holds st name owner_ik generation
      → Holds (run st cs) name owner_ik generation
  unfolding run after
  run-Holds [] st name owner_ik generation room stale h = h
  run-Holds (registers registration ik handle ∷ cs) st name owner_ik generation room stale h =
      run-Holds cs _ name owner_ik generation
        (omega (arith, after-next_generation st (registers registration ik handle))) stale.1
        (register-Holds st registration ik handle name owner_ik generation (omega arith) h)
  run-Holds (drops g ∷ cs) st name owner_ik generation room stale h =
      run-Holds cs _ name owner_ik generation (omega (arith, after-next_generation st (drops g)))
        stale.1 (deregister-Holds st g name owner_ik generation stale.0 h)

  register_starts-Holds :
      (st st' : RegistryState Handle) (registration : Registration) (ik : Bytes) (handle : Handle)
      (g : RegistrationGuard)
      → st.next_generation + 1 < 2 ^ 64
      → register st registration ik handle ≡ (ok g, st')
      → Holds st' registration.name ik g.generation × (st'.next_generation ≤ st.next_generation + 1)
  unfolding register
  register_starts-Holds st st' registration ik handle g room e = ground (
    arith,
    bytes_beq_iff registration.name registration.name,
    get-insert st.tunnels registration.name registration.name (record {
      handle = handle;
      allowed_services = registration.allowed_services;
      owner_ik = ik;
      generation = st.next_generation;
    }),
  )

  refused :
      (st : RegistryState Handle) (registration : Registration) (name ik other : Bytes)
      (handle : Handle) (generation : ℕ)
      → registration.name ≡ name
      → Holds st name ik generation
      → other ≢ ik
      → register st registration other handle ≡ (err (owned_by_different_identity name), st)
  unfolding register
  refused st registration name ik other handle generation e h ne =
      ground (arith, bytes_beq_iff other ik, bytes_beq_iff ik other)

  -- Once an identity has registered a name, it keeps the name through any history of registrations
  -- by anyone and of guard drops, short of the drop of a guard of this name that is as new as the
  -- one it was given, and as long as fewer than 2^64 registrations were made: another identity's
  -- attempt to register the name is refused and changes nothing.
  pub register_keeps :
      (st st₁ : RegistryState Handle) (r₁ r₂ : Registration) (ik other : Bytes) (h₁ h₂ : Handle)
      (g : RegistrationGuard) (cs : List (Call Handle))
      → register st r₁ ik h₁ ≡ (ok g, st₁)
      → st.next_generation + 1 + length cs < 2 ^ 64
      → All (IsStale r₁.name g.generation) cs
      → r₂.name ≡ r₁.name
      → other ≢ ik
      → register (run st₁ cs) r₂ other h₂ ≡ (err (owned_by_different_identity r₁.name), run st₁ cs)
  register_keeps st st₁ r₁ r₂ ik other h₁ h₂ g cs e room stale same ne =
      let (held, next) = register_starts-Holds st st₁ r₁ ik h₁ g (omega arith) e in
      refused (run st₁ cs) r₂ r₁.name ik other h₂ g.generation same
        (run-Holds cs st₁ r₁.name ik g.generation (omega arith) stale held) ne

  abbrev entry : Registration → Bytes → Handle → ℕ → RegisteredTunnel Handle
  entry r ik handle generation = record {
    handle = handle;
    allowed_services = r.allowed_services;
    owner_ik = ik;
    generation = generation;
  }

  register-ok :
      (st st' : RegistryState Handle) (r : Registration) (ik : Bytes) (handle : Handle)
      (g : RegistrationGuard)
      → register st r ik handle ≡ (ok g, st')
      → (get st'.tunnels r.name ≡ some (entry r ik handle g.generation))
        × (g.name ≡ r.name)
        × (g.generation ≡ st.next_generation)
        × (st'.next_generation ≡ wrap_add st.next_generation 1)
  unfolding register
  register-ok st st' r ik handle g e = ground (
    arith,
    bytes_beq_iff r.name r.name,
    get-insert st.tunnels r.name r.name (entry r ik handle st.next_generation),
  )

  -- A refresh by the owner replaces the entry and makes the drop of the guard before it a no-op: the
  -- services that a lookup of the raw name meets are those of the refresh.
  pub refresh_survives_drop :
      (st st₁ st₂ : RegistryState Handle) (r₁ r₂ : Registration) (ik : Bytes) (h₁ h₂ : Handle)
      (g₁ g₂ : RegistrationGuard)
      → register st r₁ ik h₁ ≡ (ok g₁, st₁)
      → r₂.name ≡ r₁.name
      → register st₁ r₂ ik h₂ ≡ (ok g₂, st₂)
      → st.next_generation + 1 < 2 ^ 64
      → (deregister st₂ g₁ ≡ st₂)
        × (get st₂.tunnels r₁.name
            ≡ some (record {
              handle = h₂;
              allowed_services = r₂.allowed_services;
              owner_ik = ik;
              generation = g₂.generation;
            }))
  unfolding deregister
  refresh_survives_drop st st₁ st₂ r₁ r₂ ik h₁ h₂ g₁ g₂ e₁ same e₂ room =
      let first = register-ok st st₁ r₁ ik h₁ g₁ e₁ in
      let second = register-ok st₁ st₂ r₂ ik h₂ g₂ e₂ in
      let found : get st₂.tunnels r₁.name ≡ some (entry r₂ ik h₂ g₂.generation) =
        rw (← same) second.0 in
      (ground (arith, first, second, found), found)

  -- The entry after a registration.
  pub register-entry :
      (table table' : RegistryState Handle) (r : Registration) (ik : Bytes) (handle : Handle)
      (g : RegistrationGuard)
      → register table r ik handle ≡ (ok g, table')
      → get table'.tunnels r.name
        ≡ some (record {
          handle = handle;
          allowed_services = r.allowed_services;
          owner_ik = ik;
          generation = g.generation;
        })
  unfolding register
  register-entry table table' r ik handle g =
      elim (Bool-cases (owned_by_another (get table.tunnels r.name) ik)) [
        | inl q ↦ rw (register, q) λ h. ground (arith, h)
        | inr q ↦
            rw (register, q)
              λ h. ground (
                arith,
                h,
                get-insert_self table.tunnels r.name (record {
                  handle = handle;
                  allowed_services = r.allowed_services;
                  owner_ik = ik;
                  generation = table.next_generation;
                }),
              )
      ]
