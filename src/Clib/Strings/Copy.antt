-- ===== src/Clib/Strings/Copy.antt =====
-- What the functions of lib/string.c that copy leave in the destination.
use jnix.Prelude.{
  ℕ, zero, suc, ◌≡◌, refl, true, false, List, [], ◌∷◌, ◌++◌, arith, ◌==◌, length, ok,
}
use jnix.Clib.Strings.{strncpy, memcpy}
use jnix.Clib.Strings.Compare.{is_text}

-- The first `n` bytes of the string, filled up with zeros.
unfoldable pub padded : ℕ → List ℕ → List ℕ
padded zero s = []
padded (suc n) [] = 0 ∷ padded n []
padded (suc n) (a ∷ s) = a ∷ padded n s

-- `memcpy` of `n` bytes replaces the first `n` bytes of the destination and no more.
pub memcpy_lem :
    (d s rest r : List ℕ)
    → length d ≡ length s
    → memcpy (d ++ rest) (s ++ r) (length s) ≡ ok (s ++ rest)
unfolding memcpy
memcpy_lem [] [] rest r h = refl
memcpy_lem [] (a ∷ s) rest r h = absurd (omega arith)
memcpy_lem (b ∷ d) [] rest r h = absurd (omega arith)
memcpy_lem (b ∷ d) (a ∷ s) rest r h = rw (memcpy_lem d s rest r (omega arith)) refl

strncpy-end :
    (d rest r : List ℕ) → strncpy (d ++ rest) (0 ∷ r) (length d) ≡ ok (padded (length d) [] ++ rest)
unfolding strncpy padded
strncpy-end [] rest r = refl
strncpy-end (b ∷ d) rest r = rw (strncpy-end d rest r) refl

-- `strncpy` of a string with any bound writes as many bytes as the bound says: the string, cut off
-- at the bound or filled up with zeros. What stands behind them is as before.
pub strncpy_lem :
    (d s rest r : List ℕ)
    → is_text s ≡ true
    → strncpy (d ++ rest) (s ++ (0 ∷ r)) (length d) ≡ ok (padded (length d) s ++ rest)
unfolding strncpy padded
strncpy_lem [] s rest r h = refl
strncpy_lem (b ∷ d) [] rest r h = strncpy-end (b ∷ d) rest r
strncpy_lem (b ∷ d) (a ∷ s) rest r h =
    let nonzero : (a == 0) ≡ false = ground arith in
    rw nonzero (rw (strncpy_lem d s rest r (ground arith)) refl)
