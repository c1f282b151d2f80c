-- ===== src/Base/Text.antt =====
-- The operations of Rust's `str` on UTF-8 bytes.
use Prim.Native.Nat.{ℕ, ◌+◌, ◌-◌, ◌*◌}
use mathlib.Core.Bool.{Bool, true, false, ◌&&◌, ◌||◌}
use mathlib.Core.Option.{Option, none, some}
use mathlib.Core.List.{List, [], ◌∷◌, ◌++◌, map}
use vulos_relay.Base.Tests.{leb, ◌==◌, if◌then◌else◌}
use vulos_relay.Base.Lists.{length, take, drop}
use vulos_relay.Base.Classes.{Bytes, bytes_beq}
use vulos_relay.Base.Blank.{is_blank}

-- `u8::to_ascii_lowercase`, `str::to_ascii_lowercase`
unfoldable pub to_lower : ℕ → ℕ
to_lower c = if leb 65 c && leb c 90 then c + 32 else c

unfoldable pub to_ascii_lowercase : Bytes → Bytes
to_ascii_lowercase = map to_lower

unfoldable pub eq_ignore_ascii_case : Bytes → Bytes → Bool
unfolding to_ascii_lowercase bytes_beq
eq_ignore_ascii_case s t = bytes_beq (to_ascii_lowercase s) (to_ascii_lowercase t)

unfoldable pub is_empty : Bytes → Bool
is_empty [] = true
is_empty (c ∷ s) = false

-- A continuation byte goes with the byte before it.
abbrev continues : Bytes → Bool
continues [] = false
continues (c ∷ s) = leb 0x80 c && leb c 0xbf

abbrev onto : ℕ → List Bytes → List Bytes
onto c [] = (c ∷ []) ∷ []
onto c (g ∷ gs) = (c ∷ g) ∷ gs

-- `str::chars`, each as its bytes.
unfoldable pub chars : Bytes → List Bytes
chars [] = []
chars (c ∷ s) = let rest = chars s in if continues s then onto c rest else (c ∷ []) ∷ rest

unfoldable pub concat : List Bytes → Bytes
concat [] = []
concat (g ∷ gs) = g ++ concat gs

module _ {ℓ} {A : Type ℓ} where
  unfoldable pub drop_while : (A → Bool) → List A → List A
  drop_while p [] = []
  drop_while p (x ∷ xs) = let rest = drop_while p xs in if p x then rest else x ∷ xs

  unfoldable pub reverse : List A → List A
  reverse [] = []
  reverse (x ∷ xs) = reverse xs ++ x ∷ []

  -- The elements before and after the first that passes the test, itself first among the second.
  unfoldable pub break : (A → Bool) → List A → List A × List A
  break p [] = ([], [])
  break p (x ∷ xs) = let rest = break p xs in if p x then ([], x ∷ xs) else (x ∷ rest.0, rest.1)

-- `str::trim_start_matches(c)`, `str::trim_end_matches(c)`
unfoldable pub trim_start_matches : ℕ → Bytes → Bytes
unfolding drop_while
trim_start_matches c = drop_while (λ x. x == c)

unfoldable pub trim_end_matches : ℕ → Bytes → Bytes
unfolding drop_while reverse
trim_end_matches c s = reverse (drop_while (λ x. x == c) (reverse s))

-- `str::trim`
unfoldable pub trim : Bytes → Bytes
unfolding chars concat drop_while reverse is_blank
trim s = concat (reverse (drop_while is_blank (reverse (drop_while is_blank (chars s)))))

abbrev push_word : Bytes → List Bytes → List Bytes
push_word [] ws = ws
push_word (c ∷ w) ws = (c ∷ w) ∷ ws

-- The words of a list of characters, after the characters of the word that has begun.
unfoldable pub words_of : Bytes → List Bytes → List Bytes
unfolding is_blank
words_of w [] = push_word w []
words_of w (g ∷ gs) =
    let ended = words_of [] gs in
    let longer = words_of (w ++ g) gs in if is_blank g then push_word w ended else longer

-- `str::split_whitespace`
unfoldable pub split_whitespace : Bytes → List Bytes
unfolding chars words_of
split_whitespace s = words_of [] (chars s)

abbrev cut : Bytes × Bytes → Option (Bytes × Bytes)
cut (s, []) = none
cut (s, c ∷ t) = some (s, t)

-- `str::split_once(c)`, `str::rsplit_once(c)` for an ASCII character
unfoldable pub split_once : ℕ → Bytes → Option (Bytes × Bytes)
unfolding break
split_once c s = cut (break (λ x. x == c) s)

abbrev flip : Option (Bytes × Bytes) → Option (Bytes × Bytes)
flip none = none
flip (some (s, t)) = some (reverse t, reverse s)

unfoldable pub rsplit_once : ℕ → Bytes → Option (Bytes × Bytes)
unfolding split_once reverse
rsplit_once c s = flip (split_once c (reverse s))

-- `str::strip_prefix`, `str::starts_with`
unfoldable pub strip_prefix : Bytes → Bytes → Option Bytes
unfolding bytes_beq
strip_prefix p s = if bytes_beq (take (length p) s) p then some (drop (length p) s) else none

unfoldable pub starts_with : Bytes → Bytes → Bool
unfolding bytes_beq
starts_with p s = bytes_beq (take (length p) s) p

-- `u8::from_str`: digits, after one optional `+`.
unfoldable pub u8_digits : ℕ → Bytes → Option ℕ
u8_digits n [] = some n
u8_digits n (c ∷ s) =
    let rest = u8_digits (10 * n + (c - 48)) s in
    if leb 48 c && leb c 57 && leb (10 * n + (c - 48)) 255 then rest else none

abbrev unsigned : Bytes → Bytes
unsigned [] = []
unsigned (c ∷ s) = if c == 43 then s else c ∷ s

unfoldable pub parse_u8 : Bytes → Option ℕ
unfolding u8_digits is_empty
parse_u8 s = if is_empty (unsigned s) then none else u8_digits 0 (unsigned s)

abbrev pub into : ℕ → List Bytes → List Bytes
into c [] = (c ∷ []) ∷ []
into c (w ∷ ws) = (c ∷ w) ∷ ws

-- `str::split(c)` for an ASCII character: at least one part.
unfoldable pub split : ℕ → Bytes → List Bytes
split c [] = [] ∷ []
split c (x ∷ s) = let rest = split c s in if x == c then [] ∷ rest else into x rest

-- `str::ends_with(c)`
unfoldable pub ends_with : ℕ → Bytes → Bool
ends_with c [] = false
ends_with c (x ∷ []) = x == c
ends_with c (x ∷ y ∷ s) = ends_with c (y ∷ s)

-- `u8::is_ascii_alphanumeric`
abbrev pub is_ascii_alphanumeric : ℕ → Bool
is_ascii_alphanumeric c =
    (leb 48 c && leb c 57) || (leb 65 c && leb c 90) || (leb 97 c && leb c 122)

-- `Iterator::all`
abbrev pub every {ℓ} : {A : Type ℓ} → (A → Bool) → List A → Bool
every p [] = true
every p (x ∷ xs) = p x && every p xs

-- `str::to_ascii_uppercase`
unfoldable pub to_ascii_uppercase : Bytes → Bytes
to_ascii_uppercase [] = []
to_ascii_uppercase (c ∷ s) =
    let rest = to_ascii_uppercase s in if leb 97 c && leb c 122 then (c - 32) ∷ rest else c ∷ rest
