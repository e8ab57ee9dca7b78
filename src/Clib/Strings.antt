-- ===== src/Clib/Strings.antt =====
-- lib/string.c. A pointer to constant memory is the list of the bytes from there to the end of the
-- object, past which nothing can be read; it is never null. Source and destination do not overlap.
pub mod Compare
pub mod Search
pub mod Copy
use jnix.Prelude.{
  ℕ, zero, suc, ◌+◌, ◌-◌, ◌^◌, Bool, true, false, ◌||◌, not, Option, none, some, List, [], ◌∷◌, ltb,
  ◌==◌, if◌then◌else◌, Run, ok, fault, ◌>>=◌, sub32, u32_mod,
}

-- A signed char as the unsigned int that it is extended to.
abbrev pub extend : ℕ → ℕ
extend c = if ltb c 128 then c else u32_mod - 256 + c

unfoldable pub strcmp : List ℕ → List ℕ → Run ℕ
strcmp [] p2 = fault
strcmp (a ∷ p1) [] = fault
strcmp (a ∷ p1) (b ∷ p2) =
    if a == 0 || b == 0 || not (a == b) then ok (sub32 (extend a) (extend b)) else strcmp p1 p2

-- The difference as an int: none, the first of two bytes less, or more, by so much.
unfoldable pub memcmp : List ℕ → List ℕ → ℕ → Run ℕ
memcmp su1 su2 zero = ok 0
memcmp [] su2 (suc n) = fault
memcmp (a ∷ su1) [] (suc n) = fault
memcmp (a ∷ su1) (b ∷ su2) (suc n) = if a == b then memcmp su1 su2 n else ok (sub32 a b)

-- The offset at which the character is found; `c` is `(char)c`.
unfoldable pub strchr : List ℕ → ℕ → Run (Option ℕ)
strchr [] c = fault
strchr (a ∷ str) c =
    if a == c
    then ok (some 0)
    else if a == 0
    then ok none
    else (do r ← strchr str c; ok (elim r [ none ↦ none | some i ↦ some (suc i) ]))

-- `for (r = str2; *r != '\0'; ++r) if (*p == *r) return count;`
unfoldable pub contains : ℕ → List ℕ → Run Bool
contains a [] = fault
contains a (b ∷ r) = if b == 0 then ok false else if a == b then ok true else contains a r

unfoldable pub strcspn : List ℕ → List ℕ → ℕ → Run ℕ
unfolding contains
strcspn [] str2 count = fault
strcspn (a ∷ p) str2 count =
    if a == 0
    then ok count
    else (do found ← contains a str2; if found then ok count else strcspn p str2 (count + 1))

-- The destination after `while (n) { if ((*tmp = *src) != 0) src++; tmp++; n--; }`
unfoldable pub strncpy : List ℕ → List ℕ → ℕ → Run (List ℕ)
strncpy tmp src zero = ok tmp
strncpy [] src (suc n) = fault
strncpy (d ∷ tmp) [] (suc n) = fault
strncpy (d ∷ tmp) (a ∷ src) (suc n) = do
  rest ← (if a == 0 then strncpy tmp (a ∷ src) n else strncpy tmp src n)
  ok (a ∷ rest)

unfoldable pub memcpy : List ℕ → List ℕ → ℕ → Run (List ℕ)
memcpy tmp s zero = ok tmp
memcpy [] s (suc n) = fault
memcpy (d ∷ tmp) [] (suc n) = fault
memcpy (d ∷ tmp) (a ∷ s) (suc n) = do rest ← memcpy tmp s n; ok (a ∷ rest)
