-- ===== src/Gateway/Spf/Memory.antt =====
-- `InMemorySpfResolver` of crates/gateway/src/spf.rs: tables by name in lower case, and the names
-- whose every lookup fails. It has no state: its answers do not change.
use vulos_relay.Base.{ℕ, Option, none, some, List, [], ◌∷◌, Bytes, bytes_eq, any, if◌then◌else◌}
use vulos_relay.Base.Dict.{Dict, get, insert}
use vulos_relay.Base.Text.{to_ascii_lowercase}
use vulos_relay.Gateway.Spf.Evaluator.{Answer, SpfResolver}

pub record InMemorySpfResolver : Type 0 where
  pub txt : Dict Bytes (List Bytes)
  pub a : Dict Bytes (List ℕ)
  pub aaaa : Dict Bytes (List ℕ)
  pub mx : Dict Bytes (List Bytes)
  pub failing : List Bytes

unfoldable pub new : InMemorySpfResolver
new = record { txt = []; a = []; aaaa = []; mx = []; failing = [] }

unfoldable pub with_txt : InMemorySpfResolver → Bytes → List Bytes → InMemorySpfResolver
unfolding to_ascii_lowercase
with_txt r name values = record r { txt = insert r.txt (to_ascii_lowercase name) values }

unfoldable pub with_a : InMemorySpfResolver → Bytes → List ℕ → InMemorySpfResolver
unfolding to_ascii_lowercase
with_a r name ips = record r { a = insert r.a (to_ascii_lowercase name) ips }

unfoldable pub with_aaaa : InMemorySpfResolver → Bytes → List ℕ → InMemorySpfResolver
unfolding to_ascii_lowercase
with_aaaa r name ips = record r { aaaa = insert r.aaaa (to_ascii_lowercase name) ips }

unfoldable pub with_mx : InMemorySpfResolver → Bytes → List Bytes → InMemorySpfResolver
unfolding to_ascii_lowercase
with_mx r name hosts = record r { mx = insert r.mx (to_ascii_lowercase name) hosts }

unfoldable pub with_failure : InMemorySpfResolver → Bytes → InMemorySpfResolver
unfolding to_ascii_lowercase
with_failure r name = record r { failing = to_ascii_lowercase name ∷ r.failing }

-- `unwrap_or_default`
abbrev or_default : {A : Type 0} → Option (List A) → List A
or_default none = []
or_default (some xs) = xs

unfoldable pub answer : {A : Type 0} → InMemorySpfResolver → Dict Bytes (List A) → Bytes → Answer A
unfolding to_ascii_lowercase
answer r table name =
    let key = to_ascii_lowercase name in
    if any (λ k. bytes_eq.beq k key) r.failing then none else some (or_default (get table key))

unfoldable pub resolver : InMemorySpfResolver → SpfResolver (Unit {0})
unfolding answer
resolver r = record {
  lookup_txt = λ name w. (answer r r.txt name, w);
  lookup_a = λ name w. (answer r r.a name, w);
  lookup_aaaa = λ name w. (answer r r.aaaa name, w);
  lookup_mx = λ name w. (answer r r.mx name, w);
}
