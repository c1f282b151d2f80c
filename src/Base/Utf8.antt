-- ===== src/Base/Utf8.antt =====
-- The validity test of `String::from_utf8` and `str::from_utf8` (RFC 3629).
use Prim.Native.Nat.{ℕ, zero, suc}
use mathlib.Core.Bool.{Bool, true, false, ◌&&◌}
use mathlib.Core.List.{List, [], ◌∷◌, ◌++◌}
use vulos_relay.Base.Tests.{ltb, leb, ◌==◌, if◌then◌else◌}

abbrev within : ℕ → ℕ → ℕ → Bool
within lo hi b = leb lo b && leb b hi

-- What a first byte announces: how many more bytes, and the range of the next one.
record Lead : Type 0 where
  more : ℕ
  lo : ℕ
  hi : ℕ

abbrev lead : ℕ → ℕ → ℕ → Lead
lead n l h = record { more = n; lo = l; hi = h }

-- A byte that starts nothing announces a range with no byte in it.
lead_of : ℕ → Lead
lead_of b =
    if ltb b 0x80
    then lead 0 0x80 0xbf
    else if within 0xc2 0xdf b
    then lead 1 0x80 0xbf
    else if b == 0xe0
    then lead 2 0xa0 0xbf
    else if b == 0xed
    then lead 2 0x80 0x9f
    else if within 0xe1 0xef b
    then lead 2 0x80 0xbf
    else if b == 0xf0
    then lead 3 0x90 0xbf
    else if within 0xf1 0xf3 b
    then lead 3 0x80 0xbf
    else if b == 0xf4
    then lead 3 0x80 0x8f
    else lead 1 1 0

utf8_from : ℕ → ℕ → ℕ → List ℕ → Bool
utf8_from zero lo hi [] = true
utf8_from (suc n) lo hi [] = false
utf8_from zero lo hi (b ∷ bs) = utf8_from (lead_of b).more (lead_of b).lo (lead_of b).hi bs
utf8_from (suc n) lo hi (b ∷ bs) = within lo hi b && utf8_from n 0x80 0xbf bs

unfoldable pub is_utf8 : List ℕ → Bool
unfolding utf8_from lead_of
is_utf8 = utf8_from 0 0x80 0xbf

abbrev replacement : List ℕ
replacement = 0xef ∷ 0xbf ∷ 0xbd ∷ []

abbrev starts : ℕ → Bool
starts b = leb (lead_of b).lo (lead_of b).hi

-- `String::from_utf8_lossy`: the bytes of the character that was begun are `held`; a character that is
-- cut short, and a byte that starts none, become one replacement character.
lossy_from : ℕ → ℕ → ℕ → List ℕ → List ℕ → List ℕ
lossy_from zero lo hi held [] = []
lossy_from (suc n) lo hi held [] = replacement
lossy_from zero lo hi held (b ∷ bs) =
    let character = lossy_from (lead_of b).more (lead_of b).lo (lead_of b).hi (b ∷ []) bs in
    let single = lossy_from zero 0x80 0xbf [] bs in
    if ltb b 0x80 then b ∷ single else if starts b then character else replacement ++ single
lossy_from (suc zero) lo hi held (b ∷ bs) =
    let character = lossy_from (lead_of b).more (lead_of b).lo (lead_of b).hi (b ∷ []) bs in
    let single = lossy_from zero 0x80 0xbf [] bs in
    if within lo hi b
    then held ++ b ∷ single
    else if ltb b 0x80
    then replacement ++ b ∷ single
    else if starts b
    then replacement ++ character
    else replacement ++ replacement ++ single
lossy_from (suc (suc n)) lo hi held (b ∷ bs) =
    let longer = lossy_from (suc n) 0x80 0xbf (held ++ b ∷ []) bs in
    let character = lossy_from (lead_of b).more (lead_of b).lo (lead_of b).hi (b ∷ []) bs in
    let single = lossy_from zero 0x80 0xbf [] bs in
    if within lo hi b
    then longer
    else if ltb b 0x80
    then replacement ++ b ∷ single
    else if starts b
    then replacement ++ character
    else replacement ++ replacement ++ single

unfoldable pub from_utf8_lossy : List ℕ → List ℕ
unfolding lossy_from lead_of
from_utf8_lossy = lossy_from 0 0x80 0xbf []
