-- ===== src/Clib/Numbers/Digits.antt =====
-- The digits that `number` of lib/stdio.c prints, and the loop of `_atob` that reads them.
use jnix.Prelude.{
  ℕ, zero, suc, ◌*◌, ◌/◌, ◌%◌, ◌^◌, ◌≤◌, ◌<◌, ◌≡◌, refl, sym, ap, ◌∙◌, inl, inr, Bool, true, false,
  ◌&&◌, none, some, List, [], ◌∷◌, ◌++◌, arith, replicate, leb, ◌==◌, Bool-cases, ok, add32, mul32,
}
use native.Mathlib.Nat.{mod-lt, div-add-mod', mul-le-mul_left, div-le_self, pow-succ'}
use jnix.Clib.Strings.{strchr}
use jnix.Clib.Numbers.{digit, convert, emit, value_of, atob_loop, has_0x}

pub value_of-digit : (small : Bool) (d : ℕ) → d < 16 → value_of (digit small d) ≡ some d
value_of-digit true d lt = ground arith
value_of-digit false d lt = ground arith

pub atob_loop-digit :
    (base value d c : ℕ) (p : List ℕ)
    → value_of c ≡ some d
    → (c == 0) ≡ false
    → d < base
    → atob_loop base value (c ∷ p) ≡ atob_loop base (add32 (mul32 value base) d) p
unfolding atob_loop
atob_loop-digit base value d c p v z lt =
    let below : leb base d ≡ false = ground arith in rw z (rw v (rw below refl))

digit-nonzero : (small : Bool) (d : ℕ) → (digit small d == 0) ≡ false
digit-nonzero true d = ground arith
digit-nonzero false d = ground arith

div-lt : (n base k : ℕ) → 2 ≤ base → n < 2 * k → n / base < k
div-lt n base k h lt =
    let m = mul-le-mul_left (n / base) h in let d = div-add-mod' n base in omega arith

convert-zero : (fuel base : ℕ) (small : Bool) → convert fuel base small 0 ≡ []
unfolding convert
convert-zero zero base small = refl
convert-zero (suc fuel) base small = refl

convert-step :
    (fuel base : ℕ) (small : Bool) (n : ℕ)
    → (n == 0) ≡ false
    → convert (suc fuel) base small n ≡ digit small (n % base) ∷ convert fuel base small (n / base)
unfolding convert
convert-step fuel base small n h = rw h refl

nothing-atob :
    (fuel base : ℕ) (small : Bool) (n : ℕ) (rest : List ℕ)
    → n ≡ 0
    → atob_loop base 0 (emit (convert fuel base small n) rest) ≡ atob_loop base n rest
unfolding emit
nothing-atob fuel base small n rest q =
    ap (λ k. atob_loop base 0 (emit (convert fuel base small k) rest)) q
    ∙ ap (λ l. atob_loop base 0 (emit l rest)) (convert-zero fuel base small)
    ∙ ap (λ k. atob_loop base k rest) (sym q)

-- Enough rounds give digits that are read back.
pub convert-atob :
    (fuel base : ℕ) (small : Bool) (n : ℕ) (rest : List ℕ)
    → 2 ≤ base
    → base ≤ 16
    → n < 2 ^ fuel
    → n < 2 ^ 32
    → atob_loop base 0 (emit (convert fuel base small n) rest) ≡ atob_loop base n rest
unfolding emit
convert-atob zero base small n rest lo hi enough word =
    nothing-atob zero base small n rest (omega arith)
convert-atob (suc fuel) base small n rest lo hi enough word = elim (Bool-cases (n == 0)) [
  | inl z ↦ nothing-atob (suc fuel) base small n rest (ground arith)
  | inr nz ↦
      let d = mod-lt n {m = base} (omega arith) in
      let e = div-add-mod' n base in
      let double : 2 ^ suc fuel ≡ 2 * 2 ^ fuel = pow-succ' 2 fuel in
      let less = div-lt n base (2 ^ fuel) lo (omega arith) in
      let small' = div-le_self n base in
      let d16 : n % base < 16 = omega arith in
      ap (λ l. atob_loop base 0 (emit l rest)) (convert-step fuel base small n nz)
      ∙ convert-atob fuel base small (n / base) (digit small (n % base) ∷ rest) lo hi less
          (omega arith)
      ∙ atob_loop-digit base (n / base) (n % base) (digit small (n % base)) rest
          (value_of-digit small (n % base) d16) (digit-nonzero small (n % base)) d
      ∙ ap (λ k. atob_loop base k rest) (omega arith)
]

-- The byte is a digit of base 16.
abbrev pub is_hex : ℕ → Bool
is_hex c = elim (value_of c) [ none ↦ false | some d ↦ true ]

abbrev pub all_hex : List ℕ → Bool
all_hex [] = true
all_hex (c ∷ s) = is_hex c && all_hex s

is_hex-digit : (small : Bool) (d : ℕ) → d < 16 → is_hex (digit small d) ≡ true
is_hex-digit small d lt = rw (value_of-digit small d lt, is_hex) refl

pub all_hex-emit :
    (s rest : List ℕ) → all_hex s ≡ true → all_hex rest ≡ true → all_hex (emit s rest) ≡ true
unfolding emit
all_hex-emit [] rest h r = r
all_hex-emit (c ∷ s) rest h r = all_hex-emit s (c ∷ rest) (ground arith) (ground arith)

pub all_hex-convert :
    (fuel base : ℕ) (small : Bool) (n : ℕ)
    → 2 ≤ base
    → base ≤ 16
    → all_hex (convert fuel base small n) ≡ true
unfolding convert
all_hex-convert zero base small n lo hi = refl
all_hex-convert (suc fuel) base small n lo hi = elim (Bool-cases (n == 0)) [
  | inl z ↦ rw (z, convert) refl
  | inr nz ↦
      let d = mod-lt n {m = base} (omega arith) in
      rw (nz, convert)
        (rw (is_hex-digit small (n % base) (omega arith))
          (all_hex-convert fuel base small (n / base) lo hi))
]

pub all_hex-zeros : (n : ℕ) (s : List ℕ) → all_hex s ≡ true → all_hex (replicate n b'0' ++ s) ≡ true
all_hex-zeros zero s h = h
all_hex-zeros (suc n) s h = all_hex-zeros n s h

pub emit-append : (s rest p : List ℕ) → emit s rest ++ p ≡ emit s (rest ++ p)
unfolding emit
emit-append [] rest p = refl
emit-append (c ∷ s) rest p = emit-append s (c ∷ rest) p

pub zeros-append {ℓ} :
    {A : Type ℓ}
    → (n : ℕ) (c : A) (s p : List A) → (replicate n c ++ s) ++ p ≡ replicate n c ++ (s ++ p)
zeros-append zero c s p = refl
zeros-append (suc n) c s p = ap (λ l. c ∷ l) (zeros-append n c s p)

pub atob_loop-zeros :
    (base n : ℕ) (p : List ℕ)
    → 2 ≤ base
    → atob_loop base 0 (replicate n b'0' ++ p) ≡ atob_loop base 0 p
atob_loop-zeros base zero p lo = refl
atob_loop-zeros base (suc n) p lo =
    atob_loop-digit base 0 0 b'0' (replicate n b'0' ++ p) refl refl (omega arith)
    ∙ ap (λ v. atob_loop base v (replicate n b'0' ++ p)) nothing
    ∙ atob_loop-zeros base n p lo
  where
    nothing : add32 (mul32 0 base) 0 ≡ 0
    nothing = omega arith

pub has_0x-hex : (s rest : List ℕ) → all_hex s ≡ true → has_0x (s ++ (0 ∷ rest)) ≡ ok false
unfolding has_0x
has_0x-hex [] [] h = refl
has_0x-hex [] (b ∷ rest) h = refl
has_0x-hex (a ∷ []) rest h = ground arith
has_0x-hex (a ∷ b ∷ s) rest h = ground arith

pub no-point : (s rest : List ℕ) → all_hex s ≡ true → strchr (s ++ (0 ∷ rest)) b'.' ≡ ok none
unfolding strchr
no-point [] rest h = refl
no-point (a ∷ s) rest h =
    let other : (a == b'.') ≡ false = ground arith in
    let more : (a == 0) ≡ false = ground arith in
    rw (other, more) (rw (no-point s rest (ground arith)) refl)
