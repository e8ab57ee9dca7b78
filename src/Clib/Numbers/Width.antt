-- ===== src/Clib/Numbers/Width.antt =====
-- How many bytes `number` of lib/stdio.c writes.
use jnix.Prelude.{
  ℕ, zero, suc, ◌+◌, ◌-◌, ◌≤◌, ◌≡◌, refl, ◌∙◌, inl, inr, Bool, false, ◌&&◌, ◌||◌, some, List, [],
  ◌∷◌, ◌++◌, arith, length, length-append, replicate, ltb, if◌then◌else◌, Bool-cases, sub32,
  is_negative,
}
use jnix.Clib.Numbers.{Flags, digits_of, emit, spaces, sign_of, prefix_of, rounds, number}
use jnix.Clib.Numbers.Moderate.{
  max, Moderate, filled, plain_number, length-sign_of, length-prefix_of, length-digits_of,
  number-plain_number,
}

length-replicate {ℓ} : {A : Type ℓ} → (n : ℕ) (x : A) → length (replicate n x) ≡ n
length-replicate zero x = refl
length-replicate (suc n) x = omega (arith, length-replicate n x)

length-emit : (s rest : List ℕ) → length (emit s rest) ≡ length s + length rest
unfolding emit
length-emit [] rest = omega arith
length-emit (c ∷ s) rest = omega (arith, length-emit s (c ∷ rest))

length-filled :
    (left zeropad : Bool) (size : ℕ) (front body : List ℕ)
    → length (filled left zeropad size front body) ≡ length front + length body + size
length-filled left zeropad size front body =
    let s = length-replicate {A = ℕ} size b' ' in
    let z = length-replicate {A = ℕ} size b'0' in
    let la = length-append body (spaces size) in
    let lb = length-append front (body ++ spaces size) in
    let lc = length-append (replicate size b'0') body in
    let ld = length-append front (replicate size b'0' ++ body) in
    let le = length-append front body in
    let lf = length-append (spaces size) (front ++ body) in
    elim (Bool-cases left) [
      | inl l ↦ rw l (omega arith)
      | inr l ↦ elim (Bool-cases zeropad) [
        | inl p ↦ rw l (rw p (omega arith))
        | inr p ↦ rw l (rw p (omega arith))
      ]
    ]

max-left : (a b : ℕ) → a ≤ max a b
max-left a b = ground arith

max-right : (a b : ℕ) → b ≤ max a b
max-right a b = ground arith

max-max : (a b c : ℕ) → b ≤ c → max a b ≤ max a c
max-max a b c h = ground arith

plain_number-width :
    (num base size precision : ℕ) (type : Flags)
    → 2 ≤ base
    → base ≤ 36
    → (s : List ℕ) × (plain_number num base size precision type ≡ some s)
      × (size ≤ length s)
      × (precision ≤ length s)
      × (length s ≤ max size (3 + max precision 32))
plain_number-width num base size precision type lo hi =
    let negative = type.sign && is_negative num in
    let sign = sign_of type negative in
    let special = prefix_of type base in
    let front = sign ++ special in
    let n = if negative then sub32 0 num else num in
    let tmp = digits_of base type.small n in
    let least = max precision (length tmp) in
    let zeros : List ℕ = replicate (least - length tmp) b'0' in
    let body = zeros ++ emit tmp [] in
    let known : (ltb base 2 || ltb 36 base) ≡ false = ground arith in
    let few = length-digits_of base type.small n in
    let l1 = length-sign_of type negative in
    let l2 = length-prefix_of type base in
    let l3 = length-append sign special in
    let l4 = length-replicate {A = ℕ} (least - length tmp) b'0' in
    let l5 = length-emit tmp [] in
    let l6 = length-append zeros (emit tmp []) in
    let pad = size - length front - least in
    let whole = length-filled type.left type.zeropad pad front body in
    let m1 = max-left precision (length tmp) in
    let m2 = max-right precision (length tmp) in
    let m3 = max-max precision (length tmp) 32 few in
    let m4 = max-left size (3 + max precision 32) in
    let m5 = max-right size (3 + max precision 32) in
    (
      filled type.left type.zeropad pad front body,
      rw known refl,
      omega arith,
      omega arith,
      omega arith,
    )

-- In a base from 2 to 36, with a width and a precision between -2 ^ 29 and 2 ^ 29, `number` writes at
-- least as many bytes as the width and the precision ask for, and no more than the larger of the
-- width and of three bytes behind which come the precision or 32 digits. A negative width or
-- precision asks for none.
pub number-width :
    (num base size precision : ℕ) (type : Flags)
    → 2 ≤ base
    → base ≤ 36
    → Moderate size
    → Moderate precision
    → (s : List ℕ) × (number num base size precision type ≡ some s)
      × (rounds size ≤ length s)
      × (rounds precision ≤ length s)
      × (length s ≤ max (rounds size) (3 + max (rounds precision) 32))
number-width num base size precision type lo hi s p =
    let (text, written, wide, precise, most) =
      plain_number-width num base (rounds size) (rounds precision) type lo hi in
    (text, number-plain_number num base size precision type s p ∙ written, wide, precise, most)
