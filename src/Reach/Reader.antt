-- ===== src/Reach/Reader.antt =====
-- Reading from the front of a byte string, or failing.
pub mod Gives
use vulos_relay.Base.{Bytes}
use vulos_relay.Base.Result.{Result, ok, err}

abbrev pub Reader : Type 0 → Type 0 → Type 0
Reader E A = Bytes → Result E (A × Bytes)

infixl 5 ◌>>=◌ ◌>>◌
unfoldable pub ◌>>=◌ : {E A B : Type 0} → Reader E A → (A → Reader E B) → Reader E B
◌>>=◌ m f s = elim (m s) [ ok (a, s') ↦ f a s' | err e ↦ err e ]

unfoldable pub ◌>>◌ : {E A B : Type 0} → Reader E A → Reader E B → Reader E B
unfolding ◌>>=◌
m >> k = m >>= λ _. k

unfoldable pub pure : {E A : Type 0} → A → Reader E A
pure a s = ok (a, s)
