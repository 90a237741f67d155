-- ===== src/Codec/Utf8.antt =====
-- `String::from_utf8` of the standard library, as `Reader::str` uses it: which bytes are UTF-8.
use drey.Prelude.{
  ℕ, Bool, true, false, ◌&&◌, List, [], ◌∷◌, Option, none, some, ltb, leb, ◌==◌, if◌then◌else◌,
}

abbrev between : ℕ → ℕ → ℕ → Bool
between lo hi b = leb lo b && leb b hi

-- The range that each byte after a first byte must lie in.
continuation : ℕ → Option (List (ℕ × ℕ))
continuation b =
    if ltb b 0x80
    then some []
    else if between 0xc2 0xdf b
    then some ((0x80, 0xbf) ∷ [])
    else if b == 0xe0
    then some ((0xa0, 0xbf) ∷ (0x80, 0xbf) ∷ [])
    else if b == 0xed
    then some ((0x80, 0x9f) ∷ (0x80, 0xbf) ∷ [])
    else if between 0xe1 0xef b
    then some ((0x80, 0xbf) ∷ (0x80, 0xbf) ∷ [])
    else if b == 0xf0
    then some ((0x90, 0xbf) ∷ (0x80, 0xbf) ∷ (0x80, 0xbf) ∷ [])
    else if between 0xf1 0xf3 b
    then some ((0x80, 0xbf) ∷ (0x80, 0xbf) ∷ (0x80, 0xbf) ∷ [])
    else if b == 0xf4
    then some ((0x80, 0x8f) ∷ (0x80, 0xbf) ∷ (0x80, 0xbf) ∷ [])
    else none

-- The bytes from a point where those of `pending` are still to come.
valid_from : List (ℕ × ℕ) → List ℕ → Bool
unfolding continuation
valid_from [] [] = true
valid_from (p ∷ ps) [] = false
valid_from [] (b ∷ bs) = elim (continuation b) [ none ↦ false | some ps ↦ valid_from ps bs ]
valid_from ((lo, hi) ∷ ps) (b ∷ bs) = between lo hi b && valid_from ps bs

unfoldable pub valid_utf8 : List ℕ → Bool
unfolding valid_from
valid_utf8 = valid_from []
