-- ===== src/Net/Ip/Address.antt =====
-- `inet_aton` of net/ip.c, with the tests of include/ctype.h. A string is its bytes up to and with
-- the 0.
pub mod Dotted
use jnix.Prelude.{
  ℕ, zero, suc, ◌+◌, ◌-◌, ◌*◌, ◌^◌, ◌<◌, ◌||◌, ◌&&◌, not, Bool, true, false, Option, none, some,
  List, [], ◌∷◌, ◌++◌, ltb, leb, ◌==◌, if◌then◌else◌, add32, mul32, Run, ok, fault, ◌>>=◌,
}

abbrev pub isdigit : ℕ → Bool
isdigit c = leb b'0' c && leb c b'9'

abbrev pub isascii : ℕ → Bool
isascii c = ltb c 128

abbrev pub isxdigit : ℕ → Bool
isxdigit c = isdigit c || (leb b'a' c && leb c b'F') || (leb b'A' c && leb c b'F')

abbrev pub islower : ℕ → Bool
islower c = isascii c && (leb b'a' c && leb c b'F')

-- The value with one more digit, where `c` is one.
unfoldable pub next_val : ℕ → ℕ → ℕ → Option ℕ
next_val base val c =
    if isascii c && isdigit c
    then some (add32 (mul32 val base) (c - b'0'))
    else if (base == 16) && (isascii c && isxdigit c)
    then some (add32 (mul32 val 16) (c + 10 - (if islower c then b'a' else b'A')))
    else none

-- `while ((c = *cp) != '\0')`; the 0 is no digit.
unfoldable pub collect : ℕ → ℕ → List ℕ → Run (ℕ × List ℕ)
collect base val [] = fault
collect base val (c ∷ cp) = elim (next_val base val c) [
  | none ↦ ok (val, c ∷ cp)
  | some v ↦ collect base v cp
]

-- The base, and where the digits start.
unfoldable pub base_of : List ℕ → Run (ℕ × List ℕ)
base_of [] = fault
base_of (c ∷ []) = if c == b'0' then fault else ok (10, c ∷ [])
base_of (c ∷ x ∷ cp) =
    if c == b'0'
    then (if (x == b'x') || (x == b'X') then ok (16, cp) else ok (8, x ∷ cp))
    else ok (10, c ∷ x ∷ cp)

-- One number.
unfoldable pub number_at : List ℕ → Run (ℕ × List ℕ)
number_at cp = do (base, digits) ← base_of cp; collect base 0 digits

-- What the loop does behind a number: `rest` is the loop from the next part on, none that there is
-- no room for one.
unfoldable pub behind :
    Option (List ℕ → List ℕ → Run (Option (List ℕ × (ℕ × List ℕ))))
    → List ℕ
    → ℕ × List ℕ
    → Run (Option (List ℕ × (ℕ × List ℕ)))
behind rest parts (val, []) = fault
behind rest parts (val, (c ∷ cp)) =
    if not (c == b'.') then ok (some (parts, (val, c ∷ cp))) else elim rest [
      | none ↦ ok none
      | some rest ↦ if ltb 0xff val then ok none else rest (parts ++ (val ∷ [])) cp
    ]

-- The loop, with room for so many parts; none is the return of 0.
unfoldable pub read_parts : ℕ → List ℕ → List ℕ → Run (Option (List ℕ × (ℕ × List ℕ)))
read_parts zero parts cp = number_at cp >>= behind none parts
read_parts (suc left) parts cp = number_at cp >>= behind (some (read_parts left)) parts

-- The `switch`; the parts have no bit in common.
unfoldable pub concoct : List ℕ → ℕ → ℕ
concoct [] val = val
concoct (a ∷ []) val = if ltb 0xffffff val then 0 else val + a * 2 ^ 24
concoct (a ∷ b ∷ []) val = if ltb 0xffff val then 0 else val + (a * 2 ^ 24 + b * 2 ^ 16)
concoct (a ∷ b ∷ c ∷ more) val =
    if ltb 0xff val then 0 else val + (a * 2 ^ 24 + b * 2 ^ 16 + c * 2 ^ 8)

-- `if (*cp && (!isascii(*cp) || !isspace(*cp)))`
unfoldable pub trailing : List ℕ → Bool
trailing [] = false
trailing (c ∷ cp) = not (c == 0) && (not (isascii c) || not (c == b' '))

unfoldable pub inet_aton : List ℕ → Run ℕ
inet_aton cp = do
  found ← read_parts 3 [] cp
  elim found [
    | none ↦ ok 0
    | some (parts, (val, cp)) ↦ if trailing cp then ok 0 else ok (concoct parts val)
  ]
