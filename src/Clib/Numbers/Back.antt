-- ===== src/Clib/Numbers/Back.antt =====
-- What `number` of lib/stdio.c prints is read back by `_atob`.
use jnix.Prelude.{
  ℕ, ◌-◌, ◌^◌, ◌≤◌, ◌<◌, ◌≡◌, refl, sym, ap, ◌∙◌, ◌⊎◌, inl, inr, Bool, true, false, ◌&&◌, ◌||◌,
  some, List, [], ◌∷◌, ◌++◌, arith, length, replicate, ltb, ◌==◌, Bool-cases, ok, is_negative,
}
use jnix.Clib.Numbers.{Flags, digits_of, emit, rounds, number, atob_loop, atob_depth, atob_at}
use jnix.Clib.Numbers.Moderate.{max, Moderate, filled, plain_number, number-plain_number}
use jnix.Clib.Numbers.Digits.{
  all_hex, atob_loop-zeros, convert-atob, all_hex-emit, all_hex-convert, all_hex-zeros,
  zeros-append, emit-append, has_0x-hex, no-point,
}

digits_of-atob :
    (base : ℕ) (small : Bool) (num : ℕ) (p : List ℕ)
    → 2 ≤ base
    → base ≤ 16
    → num < 2 ^ 32
    → atob_loop base 0 (emit (digits_of base small num) p) ≡ atob_loop base num p
unfolding emit
digits_of-atob base small num p lo hi word = elim (Bool-cases (num == 0)) [
  | inl z ↦
      let q : num ≡ 0 = ground arith in
      rw z (atob_loop-zeros base 1 p lo ∙ ap (λ v. atob_loop base v p) (sym q))
  | inr nz ↦ rw nz (convert-atob 32 base small num p lo hi word word)
]

all_hex-digits_of :
    (base : ℕ) (small : Bool) (num : ℕ)
    → 2 ≤ base
    → base ≤ 16
    → all_hex (digits_of base small num) ≡ true
all_hex-digits_of base small num lo hi = elim (Bool-cases (num == 0)) [
  | inl z ↦ rw z refl
  | inr nz ↦ rw nz (all_hex-convert 32 base small num lo hi)
]

-- Reading a number of base 16 or less without a point is the loop.
atob_at-hex :
    (s rest : List ℕ) (base : ℕ)
    → all_hex s ≡ true
    → atob_at (s ++ (0 ∷ rest)) base ≡ atob_loop base 0 (s ++ (0 ∷ rest))
unfolding atob_depth
atob_at-hex s rest base h = elim (Bool-cases (base == 16)) [
  | inl x ↦ rw (has_0x-hex s rest h) (rw x (rw (no-point s rest h) refl))
  | inr x ↦ rw (has_0x-hex s rest h) (rw x refl)
]

-- Digits with zeros in front are read as the number.
digits-atob :
    (base : ℕ) (small : Bool) (num n k : ℕ) (rest : List ℕ)
    → 2 ≤ base
    → base ≤ 16
    → num < 2 ^ 32
    → atob_at
        ((replicate n b'0' ++ (replicate k b'0' ++ emit (digits_of base small num) []))
          ++ (0 ∷ rest))
        base
      ≡ ok (some num)
unfolding atob_loop
digits-atob base small num n k rest lo hi word =
    let tmp = digits_of base small num in
    let hex = all_hex-emit tmp [] (all_hex-digits_of base small num lo hi) refl in
    let whole = replicate n b'0' ++ (replicate k b'0' ++ emit tmp []) in
    atob_at-hex whole rest base
      (all_hex-zeros n (replicate k b'0' ++ emit tmp []) (all_hex-zeros k (emit tmp []) hex))
    ∙ ap (atob_loop base 0) (zeros-append n b'0' (replicate k b'0' ++ emit tmp []) (0 ∷ rest))
    ∙ atob_loop-zeros base n ((replicate k b'0' ++ emit tmp []) ++ (0 ∷ rest)) lo
    ∙ ap (atob_loop base 0) (zeros-append k b'0' (emit tmp []) (0 ∷ rest))
    ∙ atob_loop-zeros base k (emit tmp [] ++ (0 ∷ rest)) lo
    ∙ ap (atob_loop base 0) (emit-append tmp [] (0 ∷ rest))
    ∙ digits_of-atob base small num (0 ∷ rest) lo hi word

-- Flags without a sign or prefix to be printed, padded on the left.
abbrev pub plain : Bool → Bool → Bool → Flags
plain zeropad sign small = record {
  zeropad = zeropad;
  sign = sign;
  plus = false;
  space = false;
  left = false;
  special = false;
  small = small;
}

filled-none : (zeropad : Bool) (body : List ℕ) → filled false zeropad 0 [] body ≡ body
filled-none true body = refl
filled-none false body = refl

plain_number-atob :
    (num base size precision : ℕ) (zeropad sign small : Bool) (rest : List ℕ)
    → 2 ≤ base
    → base ≤ 16
    → num < 2 ^ 32
    → (sign && is_negative num) ≡ false
    → (zeropad ≡ true) ⊎ (size ≡ 0)
    → (s : List ℕ) × (plain_number num base size precision (plain zeropad sign small) ≡ some s)
      × (atob_at (s ++ (0 ∷ rest)) base ≡ ok (some num))
plain_number-atob num base size precision zeropad sign small rest lo hi word pos pad =
    let tmp = digits_of base small num in
    let least = max precision (length tmp) in
    let known : (ltb base 2 || ltb 36 base) ≡ false = ground arith in
    elim pad [
      | inl z ↦ (
        replicate (size - 0 - least) b'0' ++ (replicate (least - length tmp) b'0' ++ emit tmp []),
        rw pos (rw known (rw z refl)),
        digits-atob base small num (size - 0 - least) (least - length tmp) rest lo hi word,
      )
      | inr z ↦
          let none_left : size - 0 - least ≡ 0 = omega arith in
          (
            replicate (least - length tmp) b'0' ++ emit tmp [],
            rw pos (
                rw known (
                  ap some (
                    ap
                      (λ k.
                        filled false zeropad k []
                          (replicate (least - length tmp) b'0' ++ emit tmp []))
                      none_left
                    ∙ filled-none zeropad _))),
            digits-atob base small num 0 (least - length tmp) rest lo hi word,
          )
    ]

-- A number that is not negative, or printed as unsigned, in a base from 2 to 16, with no flag but
-- SIGN, SMALL and ZEROPAD, a width and a precision between -2 ^ 29 and 2 ^ 29, and padded by zeros or
-- without a positive width: what `number` prints is read by `_atob` as that number, whatever follows
-- the string in memory.
pub number-atob :
    (num base size precision : ℕ) (zeropad sign small : Bool) (rest : List ℕ)
    → 2 ≤ base
    → base ≤ 16
    → num < 2 ^ 32
    → (sign && is_negative num) ≡ false
    → Moderate size
    → Moderate precision
    → (zeropad ≡ true) ⊎ (rounds size ≡ 0)
    → (s : List ℕ) × (number num base size precision (plain zeropad sign small) ≡ some s)
      × (atob_at (s ++ (0 ∷ rest)) base ≡ ok (some num))
number-atob num base size precision zeropad sign small rest lo hi word pos s p pad =
    let (text, written, read) =
      plain_number-atob num base (rounds size) (rounds precision) zeropad sign small rest lo hi word
        pos pad in
    (
      text,
      number-plain_number num base size precision (plain zeropad sign small) s p ∙ written,
      read,
    )
