-- ===== src/Base/Trimming.antt =====
-- Trimming and splitting texts of printable ASCII characters.
use Prim.Native.Nat.{ℕ}
use mathlib.Core.Path.{◌≡◌, refl, sym, ap, ◌∙◌}
use mathlib.Core.Bool.{Bool, true, not, ◌&&◌}
use mathlib.Core.Option.{some}
use mathlib.Core.List.{List, [], ◌∷◌, ◌++◌, map, append-nil, append_assoc}
use native.Mathlib.Omega.{arith}
use vulos_relay.Base.Tests.{leb, ◌==◌}
use vulos_relay.Base.Classes.{Bytes}
use vulos_relay.Base.Blank.{is_blank, is_blank-printable}
use vulos_relay.Base.Text.{
  chars, concat, drop_while, reverse, break, trim, split_once, rsplit_once, every,
}

abbrev pub is_printable : ℕ → Bool
is_printable c = leb 33 c && leb c 126

module _ {ℓ} {A : Type ℓ} where
  reverse-append : (xs ys : List A) → reverse (xs ++ ys) ≡ reverse ys ++ reverse xs
  unfolding reverse
  reverse-append [] ys = sym (append-nil (reverse ys))
  reverse-append (x ∷ xs) ys =
      ap (λ z. z ++ x ∷ []) (reverse-append xs ys) ∙ append_assoc (reverse ys) (reverse xs) (x ∷ [])

  reverse-reverse : (xs : List A) → reverse (reverse xs) ≡ xs
  unfolding reverse
  reverse-reverse [] = refl
  reverse-reverse (x ∷ xs) = reverse-append (reverse xs) (x ∷ []) ∙ ap (◌∷◌ x) (reverse-reverse xs)

  every-append : (p : A → Bool) (xs ys : List A) → every p (xs ++ ys) ≡ (every p xs && every p ys)
  every-append p [] ys = refl
  every-append p (x ∷ xs) ys = ground (arith, every-append p xs ys)

  every-reverse : (p : A → Bool) (xs : List A) → every p (reverse xs) ≡ every p xs
  unfolding reverse
  every-reverse p [] = refl
  every-reverse p (x ∷ xs) =
      ground (arith, every-append p (reverse xs) (x ∷ []), every-reverse p xs)

  drop_while-none :
      (p : A → Bool) (xs : List A) → every (λ x. not (p x)) xs ≡ true → drop_while p xs ≡ xs
  unfolding drop_while
  drop_while-none p [] h = refl
  drop_while-none p (x ∷ xs) h = ground (arith, h)

abbrev single : ℕ → Bytes
single c = c ∷ []

chars-printable : (s : Bytes) → every is_printable s ≡ true → chars s ≡ map single s
unfolding chars
chars-printable [] h = refl
chars-printable (c ∷ []) h = refl
chars-printable (c ∷ d ∷ s) h = ground (arith, h, chars-printable (d ∷ s))

concat-single : (s : Bytes) → concat (map single s) ≡ s
unfolding concat
concat-single [] = refl
concat-single (c ∷ s) = ap (◌∷◌ c) (concat-single s)

no_blank :
    (s : Bytes) → every is_printable s ≡ true → every (λ g. not (is_blank g)) (map single s) ≡ true
no_blank [] h = refl
no_blank (c ∷ s) h = ground (arith, h, is_blank-printable c, no_blank s)

pub trim-printable : (s : Bytes) → every is_printable s ≡ true → trim s ≡ s
unfolding trim
trim-printable s h =
    let gs = map single s in
    let plain = no_blank s h in
    let back : every (λ g. not (is_blank g)) (reverse gs) ≡ true = every-reverse _ gs ∙ plain in
    ap (λ cs. concat (reverse (drop_while is_blank (reverse (drop_while is_blank cs)))))
      (chars-printable s h)
    ∙ ap (λ cs. concat (reverse (drop_while is_blank (reverse cs))))
        (drop_while-none is_blank gs plain)
    ∙ ap (λ cs. concat (reverse cs)) (drop_while-none is_blank (reverse gs) back)
    ∙ ap concat (reverse-reverse gs)
    ∙ concat-single s

break-at :
    (c : ℕ) (s t : Bytes)
    → every (λ x. not (x == c)) s ≡ true
    → break (λ x. x == c) (s ++ c ∷ t) ≡ (s, c ∷ t)
unfolding break
break-at c [] t h = ground arith
break-at c (x ∷ s) t h = ground (arith, h, break-at c s t)

split_once-at :
    (c : ℕ) (s t : Bytes)
    → every (λ x. not (x == c)) s ≡ true
    → split_once c (s ++ c ∷ t) ≡ some (s, t)
unfolding split_once
split_once-at c s t h = rw (split_once, break-at c s t h) refl

-- The last `c` of a text is the one after which there is none.
pub rsplit_once-at :
    (c : ℕ) (s t : Bytes)
    → every (λ x. not (x == c)) t ≡ true
    → rsplit_once c (s ++ c ∷ t) ≡ some (s, t)
unfolding rsplit_once reverse
rsplit_once-at c s t h =
    let e : reverse (s ++ c ∷ t) ≡ reverse t ++ c ∷ reverse s =
      reverse-append s (c ∷ t) ∙ append_assoc (reverse t) (c ∷ []) (reverse s) in
    let back : every (λ x. not (x == c)) (reverse t) ≡ true = every-reverse _ t ∙ h in
    rw (rsplit_once, e, split_once-at c (reverse t) (reverse s) back)
      (cc (reverse-reverse s, reverse-reverse t))
