-- ===== src/Clib/Numbers.antt =====
-- Numbers as text: `number`, `skip_atoi`, `_getbase`, `_atob` and `atob` of lib/stdio.c, and `itoa` of
-- lib/stdlib.c. An int is its 32 bits.
pub mod Digits
pub mod Back
pub mod Moderate
pub mod Width
pub mod Hex
use jnix.Prelude.{
  ℕ, zero, suc, ◌+◌, ◌-◌, ◌*◌, ◌/◌, ◌%◌, ◌^◌, Bool, true, false, ◌&&◌, ◌||◌, not, Option, none,
  some, List, [], ◌∷◌, ◌++◌, length, set, replicate, ltb, leb, ◌==◌, if◌then◌else◌, Run, ok, fault,
  stuck, ◌>>=◌, add32, sub32, mul32, minus, u32_mod, is_negative,
}
use jnix.Clib.Strings.{strchr, strncpy}

-- The bits of `type`: ZEROPAD, SIGN, PLUS, SPACE, LEFT, SPECIAL and SMALL.
pub record Flags : Type 0 where
  pub zeropad : Bool
  pub sign : Bool
  pub plus : Bool
  pub space : Bool
  pub left : Bool
  pub special : Bool
  pub small : Bool

-- `digits[d]`
abbrev pub digit : Bool → ℕ → ℕ
digit small d = if ltb d 10 then b'0' + d else (if small then b'a' else b'A') + (d - 10)

-- `while (num!=0) tmp[i++]=digits[do_div(num,base)];` with the rounds that are left.
unfoldable pub convert : ℕ → ℕ → Bool → ℕ → List ℕ
convert zero base small num = []
convert (suc fuel) base small num =
    let rest = convert fuel base small (num / base) in
    if num == 0 then [] else digit small (num % base) ∷ rest

-- `tmp`, the digits from the last on. An int has no more than 32.
abbrev pub digits_of : ℕ → Bool → ℕ → List ℕ
digits_of base small num = if num == 0 then b'0' ∷ [] else convert 32 base small num

-- `while(i-->0) *str++ = tmp[i];` and what comes behind.
unfoldable pub emit : List ℕ → List ℕ → List ℕ
emit [] rest = rest
emit (c ∷ tmp) rest = emit tmp (c ∷ rest)

abbrev pub spaces : ℕ → List ℕ
spaces n = replicate n b' '

-- The sign, if there is one.
abbrev pub sign_of : Flags → Bool → List ℕ
sign_of type negative =
    if negative
    then b'-' ∷ []
    else if type.plus
    then b'+' ∷ []
    else if type.space
    then b' ' ∷ []
    else []

-- What SPECIAL puts in front.
abbrev pub prefix_of : Flags → ℕ → List ℕ
prefix_of type base =
    if type.special
    then (if base == 8
        then b'0' ∷ []
        else if base == 16
        then b'0' ∷ (if type.small then b'x' else b'X') ∷ []
        else [])
    else []

-- How often `while(size-->0)` goes round, and what it leaves in `size`, an int that wraps round.
unfoldable pub rounds : ℕ → ℕ
rounds size = if is_negative size then 0 else size

unfoldable pub size_after : ℕ → ℕ
size_after size = if is_negative size then sub32 size 1 else minus 1

-- `while(size-->0) *str++ = c;` if it is reached, and what it leaves.
abbrev pub pad : Bool → ℕ → ℕ → List ℕ × ℕ
pad reached c size = if reached then (replicate (rounds size) c, size_after size) else ([], size)

-- The number with the three loops that pad it. `c` is '0' with ZEROPAD, which LEFT turns off.
abbrev pub padded : Flags → ℕ → List ℕ → List ℕ → List ℕ
padded type size front body =
    let (before, size₁) = pad (not (type.zeropad || type.left)) b' ' size in
    let (between, size₂) = pad (not type.left) (if type.zeropad then b'0' else b' ') size₁ in
    let (behind, _) = pad true b' ' size₂ in before ++ (front ++ (between ++ (body ++ behind)))

-- `if (i>precision) precision=i;`
abbrev pub at_least : ℕ → ℕ → ℕ
at_least precision i = if is_negative precision || ltb precision i then i else precision

-- The bytes that `number` writes; `size` and `precision` are ints. The null pointer is returned for
-- a base that it does not know.
unfoldable pub number : ℕ → ℕ → ℕ → ℕ → Flags → Option (List ℕ)
number num base size precision type =
    let negative = type.sign && is_negative num in
    let front = sign_of type negative ++ prefix_of type base in
    let tmp = digits_of base type.small (if negative then sub32 0 num else num) in
    let least = at_least precision (length tmp) in
    if ltb base 2 || ltb 36 base
    then none
    else some (
        padded type (sub32 (sub32 size (length front)) least) front
          (replicate (least - length tmp) b'0' ++ emit tmp []))

abbrev pub is_digit : ℕ → Bool
is_digit c = leb b'0' c && leb c b'9'

-- The number, and what follows it.
unfoldable pub skip_atoi : ℕ → List ℕ → ℕ × List ℕ
skip_atoi i [] = (i, [])
skip_atoi i (c ∷ s) =
    let r = skip_atoi (add32 (mul32 i 10) (c - b'0')) s in if is_digit c then r else (i, c ∷ s)

-- The value of a digit, none if it is not one.
abbrev pub value_of : ℕ → Option ℕ
value_of c =
    if is_digit c
    then some (c - b'0')
    else if leb b'a' c && leb c b'f'
    then some (c - b'a' + 10)
    else if leb b'A' c && leb c b'F'
    then some (c - b'A' + 10)
    else none

-- `for (; *p; p++) …`
unfoldable pub atob_loop : ℕ → ℕ → List ℕ → Run (Option ℕ)
atob_loop base value [] = fault
atob_loop base value (c ∷ p) =
    let rest = λ (digit : ℕ). atob_loop base (add32 (mul32 value base) digit) p in
    if c == 0 then ok (some value) else elim (value_of c) [
      | none ↦ ok none
      | some digit ↦ if leb base digit then ok none else rest digit
    ]

-- `p[0] == '0' && (p[1] == 'x' || p[1] == 'X')`
unfoldable pub has_0x : List ℕ → Run Bool
has_0x [] = fault
has_0x (a ∷ []) = if a == b'0' then fault else ok false
has_0x (a ∷ b ∷ p) = ok ((a == b'0') && ((b == b'x') || (b == b'X')))

abbrev pub skip : ℕ → List ℕ → List ℕ
skip zero p = p
skip (suc n) [] = []
skip (suc n) (a ∷ p) = skip n p

-- The two sides of a point, each converted by the function given, `q` bytes behind `p`. The bytes of
-- `tmp` behind the 0 are not read.
unfoldable pub atob_fixed : (List ℕ → Run (Option ℕ)) → List ℕ → ℕ → Run (Option ℕ)
atob_fixed convert p q = if ltb 19 q then ok none else (do
  tmp ← strncpy (replicate 20 0) p q
  v1 ← convert (set tmp q 0)
  elim v1 [
    | none ↦ ok none
    | some v1 ↦ do
      point ← strchr (skip (q + 1) p) b'.'
      elim point [
        | some i ↦ ok none
        | none ↦ do
          v2 ← convert (skip (q + 1) p)
          ok (elim v2 [ none ↦ none | some v2 ↦ some (add32 (v1 * 65536) v2) ])
      ]
  ])

-- `_atob`: the value, none if it returns 0, with the depth of calls that is left.
unfoldable pub atob_depth : ℕ → List ℕ → ℕ → Run (Option ℕ)
atob_depth zero p base = stuck
atob_depth (suc depth) p₀ base₀ = do
  hex ← has_0x p₀
  let p = if hex then skip 2 p₀ else p₀
  let base = if hex then 16 else base₀
  q ← (if base == 16 then strchr p b'.' else ok none)
  elim q [ none ↦ atob_loop base 0 p | some q ↦ atob_fixed (λ s. atob_depth depth s 16) p q ]

-- Neither side of the point has another.
abbrev pub atob_at : List ℕ → ℕ → Run (Option ℕ)
atob_at p base = atob_depth 2 p base

-- `_getbase`: the base, and where the number starts.
unfoldable pub getbase : List ℕ → Run (ℕ × List ℕ)
getbase [] = fault
getbase (a ∷ []) = if a == b'0' then fault else ok (10, a ∷ [])
getbase (a ∷ b ∷ p) = ok (
    if a == b'0'
    then (if b == b'x'
        then (16, p)
        else if (b == b't') || (b == b'n')
        then (10, p)
        else if b == b'o'
        then (8, p)
        else (10, a ∷ b ∷ p))
    else (10, a ∷ b ∷ p))

unfoldable pub atob : List ℕ → ℕ → Run (Option ℕ)
atob p base = if base == 0 then (do (b, q) ← getbase p; atob_at q b) else atob_at p base
