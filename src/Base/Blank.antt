-- ===== src/Base/Blank.antt =====
-- The test `s.trim().is_empty()`: every character is whitespace by Unicode's `White_Space`, on the
-- UTF-8 bytes.
use Prim.Native.Nat.{ℕ, ◌≤◌}
use mathlib.Core.Path.{◌≡◌}
use native.Mathlib.Omega.{arith}
use mathlib.Core.Bool.{Bool, true, false, ◌&&◌, ◌||◌}
use mathlib.Core.List.{List, [], ◌∷◌}
use vulos_relay.Base.Tests.{leb, ◌==◌, if◌then◌else◌}

-- The bytes of a character that were read so far, or `bad` where no whitespace begins so.
pub data Prefix : Type 0 where
  start c2 e1 e1_9a e2 e2_80 e2_81 e3 e3_80 bad : Prefix

abbrev within : ℕ → ℕ → ℕ → Bool
within lo hi b = leb lo b && leb b hi

next : Prefix → ℕ → Prefix
next start b =
    if within 9 13 b || b == 32
    then start
    else if b == 0xc2
    then c2
    else if b == 0xe1
    then e1
    else if b == 0xe2
    then e2
    else if b == 0xe3
    then e3
    else bad
next c2 b = if b == 0x85 || b == 0xa0 then start else bad
next e1 b = if b == 0x9a then e1_9a else bad
next e1_9a b = if b == 0x80 then start else bad
next e2 b = if b == 0x80 then e2_80 else if b == 0x81 then e2_81 else bad
next e2_80 b = if within 0x80 0x8a b || within 0xa8 0xa9 b || b == 0xaf then start else bad
next e2_81 b = if b == 0x9f then start else bad
next e3 b = if b == 0x80 then e3_80 else bad
next e3_80 b = if b == 0x80 then start else bad
next bad b = bad

blank_from : Prefix → List ℕ → Bool
blank_from start [] = true
blank_from p [] = false
blank_from p (b ∷ bs) = blank_from (next p b) bs

unfoldable pub is_blank : List ℕ → Bool
unfolding blank_from next
is_blank = blank_from start

-- A printable ASCII character is not blank.
pub is_blank-printable : (c : ℕ) → 33 ≤ c → c ≤ 126 → is_blank (c ∷ []) ≡ false
unfolding is_blank next blank_from
is_blank-printable c lo hi = ground arith
