-- ===== src/Reach/Reader/Gives.antt =====
-- Postconditions of readers, with a rule for each construct.
use vulos_relay.Base.{Bytes}
use vulos_relay.Base.Result.{Result, ok, err}
use vulos_relay.Reach.Reader.{Reader, ◌>>=◌, pure}

-- Whatever is read meets `P`.
abbrev pub Post : {E A : Type 0} → (A → Type 0) → Result E (A × Bytes) → Type 0
Post P (ok (a, s)) = P a
Post P (err e) = Unit {0}

pub record Gives {E A : Type 0} (P : A → Type 0) (m : Reader E A) : Type 0 where
  pub run : (s : Bytes) → Post P (m s)

module _ {E A B : Type 0} {P : A → Type 0} {Q : B → Type 0} where
  gives_result :
      (r : Result E (A × Bytes)) (f : A → Reader E B)
      → Post P r
      → ((a : A) → P a → Gives Q (f a))
      → Post Q (elim r [ ok (a, s') ↦ f a s' | err e ↦ err e ])
  gives_result (ok (a, s)) f p next = (next a p).run s
  gives_result (err e) f p next = tt

  pub Gives-bind :
      {m : Reader E A} {f : A → Reader E B}
      → Gives P m
      → ((a : A) → P a → Gives Q (f a))
      → Gives Q (m >>= f)
  unfolding ◌>>=◌
  Gives-bind {m} {f} g next = record { run = λ s. gives_result (m s) f (g.run s) next }

pub Gives-pure : {E B : Type 0} {Q : B → Type 0} (b : B) → Q b → Gives {E = E} Q (pure b)
unfolding pure
Gives-pure b q = record { run = λ s. q }
