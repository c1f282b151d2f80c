-- ===== src/Base/Pairs.antt =====
-- Pairs of byte strings as keys.
use mathlib.Core.Path.{◌≡◌}
use mathlib.Core.Bool.{Bool, true, false}
use native.Mathlib.Omega.{arith}
use vulos_relay.Base.Tests.{if◌then◌else◌}
use vulos_relay.Base.Classes.{Eq, Bytes, bytes_beq, bytes_beq_iff, bytes_eq}

abbrev pub pair_beq : Bytes × Bytes → Bytes × Bytes → Bool
pair_beq (a, b) (c, d) = if bytes_beq a c then bytes_beq b d else false

pub pair_beq_eq : (p q : Bytes × Bytes) → pair_beq p q ≡ true → p ≡ q
pair_beq_eq (a, b) (c, d) h = ground (arith, bytes_beq_iff a c, bytes_beq_iff b d, h)

pub pair_beq_refl : (p : Bytes × Bytes) → pair_beq p p ≡ true
pair_beq_refl (a, b) = ground (arith, bytes_beq_iff a a, bytes_beq_iff b b)

instance abbrev pub pair_eq : Eq (Bytes × Bytes)
pair_eq = record { beq = pair_beq; beq_iff = λ p q. (pair_beq_eq p q, λ e. rw e (pair_beq_refl q)) }
