-- ===== src/Clib/Numbers/Moderate.antt =====
-- `number` of lib/stdio.c where its ints do not wrap round: the width and the precision are counts of
-- bytes.
use jnix.Prelude.{
  ℕ, zero, suc, ◌+◌, ◌-◌, ◌/◌, ◌^◌, ◌≤◌, ◌<◌, ◌≡◌, refl, sym, subst, ap, ◌∙◌, ◌⊎◌, inl, inr, Bool,
  ◌&&◌, ◌||◌, Option, none, some, List, [], ◌++◌, arith, length, length-append, replicate, ltb,
  ◌==◌, if◌then◌else◌, Bool-cases, sub32, minus, is_negative,
}
use mathlib.Core.List.{append-nil}
use jnix.Clib.Numbers.{
  Flags, convert, digits_of, emit, spaces, sign_of, prefix_of, rounds, size_after, padded, at_least,
  number,
}

abbrev pub max : ℕ → ℕ → ℕ
max a b = if ltb a b then b else a

-- An int between -2 ^ 29 and 2 ^ 29.
abbrev pub Moderate : ℕ → Type 0
Moderate n = (n < 2 ^ 29) ⊎ ((2 ^ 32 - 2 ^ 29 ≤ n) × (n < 2 ^ 32))

-- The two sides of the number, padded by `size` bytes.
abbrev pub filled : Bool → Bool → ℕ → List ℕ → List ℕ → List ℕ
filled left zeropad size front body =
    if left
    then front ++ (body ++ spaces size)
    else if zeropad
    then front ++ (replicate size b'0' ++ body)
    else spaces size ++ (front ++ body)

-- The bytes of `number` for counts.
abbrev pub plain_number : ℕ → ℕ → ℕ → ℕ → Flags → Option (List ℕ)
plain_number num base size precision type =
    let negative = type.sign && is_negative num in
    let front = sign_of type negative ++ prefix_of type base in
    let tmp = digits_of base type.small (if negative then sub32 0 num else num) in
    let least = max precision (length tmp) in
    if ltb base 2 || ltb 36 base
    then none
    else some (
        filled type.left type.zeropad (size - length front - least) front
          (replicate (least - length tmp) b'0' ++ emit tmp []))

rounds-positive : (n : ℕ) → n < 2 ^ 31 → rounds n ≡ n
unfolding rounds
rounds-positive n lt = ground arith

rounds-negative : (n : ℕ) → 2 ^ 31 ≤ n → rounds n ≡ 0
unfolding rounds
rounds-negative n le = ground arith

size_after-positive : (n : ℕ) → n < 2 ^ 31 → size_after n ≡ minus 1
unfolding size_after
size_after-positive n lt = ground arith

size_after-negative :
    (n : ℕ) → 2 ^ 31 + 2 < n → n < 2 ^ 32 → (size_after n < 2 ^ 32) × (2 ^ 31 + 1 < size_after n)
unfolding size_after
size_after-negative n lo hi = (ground arith, ground arith)

size_after-low : (m : ℕ) → 2 ^ 31 + 1 < m → m < 2 ^ 32 → 2 ^ 31 ≤ size_after m
unfolding size_after
size_after-low m above below = ground arith

-- A size that no loop of `number` takes below the least int.
Padding : ℕ → Type 0
Padding n = (n < 2 ^ 31) ⊎ ((2 ^ 31 + 2 < n) × (n < 2 ^ 32))

rounds_again : (n : ℕ) → Padding n → rounds (size_after n) ≡ 0
unfolding Padding
rounds_again n (inl pos) =
    ap rounds (size_after-positive n pos) ∙ rounds-negative (minus 1) (omega arith)
rounds_again n (inr (lo, hi)) =
    rounds-negative (size_after n) (omega (arith, (size_after-negative n lo hi).1))

rounds_third : (n : ℕ) → Padding n → rounds (size_after (size_after n)) ≡ 0
unfolding Padding
rounds_third n (inl pos) = ap (λ k. rounds (size_after k)) (size_after-positive n pos) ∙ once
  where
    once : rounds (size_after (minus 1)) ≡ 0
    once = rounds_again (minus 1) (inr (omega arith, omega arith))
rounds_third n (inr (lo, hi)) =
    let (below, above) = size_after-negative n lo hi in
    rounds-negative (size_after (size_after n)) (size_after-low (size_after n) above below)

padded-filled :
    (type : Flags) (size : ℕ) (front body : List ℕ)
    → Padding size
    → padded type size front body ≡ filled type.left type.zeropad (rounds size) front body
padded-filled type size front body p = elim (Bool-cases type.left) [
  | inl l ↦ elim (Bool-cases type.zeropad) [ inl z ↦ rw (l, z) refl | inr z ↦ rw (l, z) refl ]
  | inr l ↦ elim (Bool-cases type.zeropad) [
    | inl z ↦ rw (l, z) (rw (rounds_again size p, append-nil body) refl)
    | inr z ↦ rw (l, z) (rw (rounds_again size p, rounds_third size p, append-nil body) refl)
  ]
]

length-convert : (fuel base : ℕ) (small : Bool) (n : ℕ) → length (convert fuel base small n) ≤ fuel
unfolding convert
length-convert zero base small n = omega arith
length-convert (suc fuel) base small n = elim (Bool-cases (n == 0)) [
  | inl z ↦ rw (z, convert) (omega arith)
  | inr nz ↦ rw (nz, convert) (omega (arith, length-convert fuel base small (n / base)))
]

pub length-digits_of : (base : ℕ) (small : Bool) (n : ℕ) → length (digits_of base small n) ≤ 32
length-digits_of base small n = elim (Bool-cases (n == 0)) [
  | inl z ↦ rw z (omega arith)
  | inr nz ↦ rw nz (length-convert 32 base small n)
]

pub length-sign_of : (type : Flags) (negative : Bool) → length (sign_of type negative) ≤ 1
length-sign_of type negative = ground arith

pub length-prefix_of : (type : Flags) (base : ℕ) → length (prefix_of type base) ≤ 2
length-prefix_of type base = ground arith

length-front :
    (type : Flags) (base : ℕ) (negative : Bool)
    → length (sign_of type negative ++ prefix_of type base) ≤ 3
length-front type base negative =
    let l₁ = length-sign_of type negative in
    let l₂ = length-prefix_of type base in
    omega (arith, length-append (sign_of type negative) (prefix_of type base))

at_least-max :
    (precision i : ℕ)
    → Moderate precision
    → i ≤ 32
    → (at_least precision i ≡ max (rounds precision) i) × (at_least precision i < 2 ^ 30)
unfolding rounds
at_least-max precision i (inl p) d = (ground arith, ground arith)
at_least-max precision i (inr (lo, hi)) d = (ground arith, ground arith)

-- A moderate int less a count.
sub32-Padding :
    (size k : ℕ)
    → Moderate size
    → k < 2 ^ 30 + 4
    → Padding (sub32 size k) × (rounds (sub32 size k) ≡ rounds size - k)
unfolding rounds Padding
sub32-Padding size k (inr (lo, hi)) d =
    let e : sub32 size k ≡ size - k = omega arith in
    (inr (omega (arith, e), omega (arith, e)), ground (arith, e))
sub32-Padding size k (inl s) d = elim (Bool-cases (ltb size k)) [
  | inl less ↦
      let lt : size < k = ground arith in
      let e : sub32 size k ≡ size + 2 ^ 32 - k = omega arith in
      (inr (omega (arith, e), omega (arith, e)), ground (arith, e))
  | inr more ↦
      let le : k ≤ size = ground arith in
      let e : sub32 size k ≡ size - k = omega arith in (inl (omega (arith, e)), ground (arith, e))
]

-- What is left of the size behind the number, as an int and as a count.
left_over :
    (size front precision i : ℕ)
    → Moderate size
    → Moderate precision
    → front ≤ 3
    → i ≤ 32
    → (at_least precision i ≡ max (rounds precision) i)
      × Padding (sub32 (sub32 size front) (at_least precision i))
      × (rounds (sub32 (sub32 size front) (at_least precision i))
          ≡ rounds size - front - max (rounds precision) i)
left_over size front precision i s p f d =
    let (least, small) = at_least-max precision i p d in
    let m = at_least precision i in
    let twice : sub32 (sub32 size front) m ≡ sub32 size (front + m) =
      sub32_twice size front m (bounded size s) f small in
    let (padding, count) = sub32-Padding size (front + m) s (omega arith) in
    (least, subst Padding (sym twice) padding, ap rounds twice ∙ count ∙ omega (arith, least))
  where
    bounded : (n : ℕ) → Moderate n → n < 2 ^ 32
    bounded n (inl lt) = omega arith
    bounded n (inr (lo, hi)) = hi

    sub32_twice :
        (n a b : ℕ) → n < 2 ^ 32 → a ≤ 3 → b < 2 ^ 30 → sub32 (sub32 n a) b ≡ sub32 n (a + b)
    sub32_twice n a b lt la lb = omega arith

-- Between these bounds no int of `number` wraps round.
pub number-plain_number :
    (num base size precision : ℕ) (type : Flags)
    → Moderate size
    → Moderate precision
    → number num base size precision type
      ≡ plain_number num base (rounds size) (rounds precision) type
unfolding number
number-plain_number num base size precision type s p =
    let negative = type.sign && is_negative num in
    let front = sign_of type negative ++ prefix_of type base in
    let tmp = digits_of base type.small (if negative then sub32 0 num else num) in
    let few = length-front type base negative in
    let digits = length-digits_of base type.small (if negative then sub32 0 num else num) in
    let (least, padding, left) =
      left_over size (length front) precision (length tmp) s p few digits in
    let body : ℕ → List ℕ = λ k. replicate (k - length tmp) b'0' ++ emit tmp [] in
    ap (λ l. if ltb base 2 || ltb 36 base then none else some l)
      (padded-filled type (sub32 (sub32 size (length front)) (at_least precision (length tmp)))
          front (body (at_least precision (length tmp))) padding
        ∙ ap (λ k. filled type.left type.zeropad k front (body (at_least precision (length tmp))))
            left
        ∙ ap
            (λ k.
              filled type.left type.zeropad
                (rounds size - length front - max (rounds precision) (length tmp)) front (body k))
            least)
