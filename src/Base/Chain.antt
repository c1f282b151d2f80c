-- ===== src/Base/Chain.antt =====
-- `do` blocks on `Option`: Rust's `?`, on an `Option` or on a `Result` whose error is `()`.
use mathlib.Core.Option.{Option, none, some}

infixl 5 ◌>>=◌
abbrev pub ◌>>=◌ {ℓ κ} : {A : Type ℓ} {B : Type κ} → Option A → (A → Option B) → Option B
none >>= f = none
some x >>= f = f x
