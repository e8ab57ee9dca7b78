-- ===== src/Clib/Numbers/Hex.antt =====
-- `itoa` of lib/stdlib.c, and that `_atob` of lib/stdio.c reads what it writes.
use jnix.Prelude.{
  ℕ, zero, suc, ◌+◌, ◌*◌, ◌/◌, ◌%◌, ◌^◌, ◌<◌, ◌≡◌, refl, sym, ap, ◌∙◌, inl, inr, Bool, true, false,
  ◌||◌, some, List, [], ◌∷◌, ◌++◌, arith, ltb, ◌==◌, if◌then◌else◌, Bool-cases, ok,
}
use native.Mathlib.Nat.{div-add-mod', div-le_self, div-one, div-div-eq-div-mul, pow-suc}
use jnix.Clib.Numbers.{value_of, atob_loop, has_0x, atob_depth, atob_at}
use jnix.Clib.Numbers.Digits.{all_hex, is_hex, atob_loop-digit, no-point}

-- `ch += '0'; if(ch > '9') ch += 7;`
abbrev pub hex_digit : ℕ → ℕ
hex_digit ch = if ltb b'9' (ch + b'0') then ch + b'0' + 7 else ch + b'0'

-- `for(i=28;i>=0;i-=4) …` with the groups of four bits that are left.
unfoldable pub hex_digits : ℕ → ℕ → Bool → List ℕ
hex_digits zero num flag = []
hex_digits (suc i) num flag =
    let ch = num / 16 ^ i % 16 in
    let shown = flag || ltb 0 ch in
    let rest = hex_digits i num shown in if shown then hex_digit ch ∷ rest else rest

-- The string, without the 0 behind it.
unfoldable pub itoa : ℕ → List ℕ
itoa num = b'0' ∷ b'x' ∷ (if num == 0 then b'0' ∷ [] else hex_digits 8 num false)

value_of-hex_digit : (d : ℕ) → d < 16 → value_of (hex_digit d) ≡ some d
value_of-hex_digit d lt = ground arith

hex_digit-nonzero : (d : ℕ) → (hex_digit d == 0) ≡ false
hex_digit-nonzero d = ground arith

hex_digits-shown :
    (i num : ℕ) (flag : Bool)
    → (flag || ltb 0 (num / 16 ^ i % 16)) ≡ true
    → hex_digits (suc i) num flag ≡ hex_digit (num / 16 ^ i % 16) ∷ hex_digits i num true
unfolding hex_digits
hex_digits-shown i num flag h = rw h refl

hex_digits-hidden :
    (i num : ℕ) (flag : Bool)
    → (flag || ltb 0 (num / 16 ^ i % 16)) ≡ false
    → hex_digits (suc i) num flag ≡ hex_digits i num false
unfolding hex_digits
hex_digits-hidden i num flag h = rw h refl

-- With the groups before read as the value, the groups left complete it.
hex_digits-atob :
    (i num : ℕ) (flag : Bool) (rest : List ℕ)
    → num < 2 ^ 32
    → (flag || (num / 16 ^ i == 0)) ≡ true
    → atob_loop 16 (num / 16 ^ i) (hex_digits i num flag ++ rest) ≡ atob_loop 16 num rest
unfolding hex_digits
hex_digits-atob zero num flag rest word h = ap (λ v. atob_loop 16 v rest) (div-one num)
hex_digits-atob (suc i) num flag rest word h =
    let split : num / 16 ^ i ≡ num / 16 ^ suc i * 16 + num / 16 ^ i % 16 =
      sym (div-add-mod' (num / 16 ^ i) 16)
      ∙ ap (λ x. x * 16 + num / 16 ^ i % 16)
          (div-div-eq-div-mul num (16 ^ i) 16 ∙ ap (λ k. num / k) (sym (pow-suc 16 i))) in
    let d : num / 16 ^ i % 16 < 16 = omega arith in
    let small = div-le_self num (16 ^ i) in
    elim (Bool-cases (flag || ltb 0 (num / 16 ^ i % 16))) [
      | inl shown ↦
          ap (λ l. atob_loop 16 (num / 16 ^ suc i) (l ++ rest)) (hex_digits-shown i num flag shown)
          ∙ atob_loop-digit 16 (num / 16 ^ suc i) (num / 16 ^ i % 16)
              (hex_digit (num / 16 ^ i % 16)) (hex_digits i num true ++ rest)
              (value_of-hex_digit (num / 16 ^ i % 16) d) (hex_digit-nonzero (num / 16 ^ i % 16)) d
          ∙ ap (λ v. atob_loop 16 v (hex_digits i num true ++ rest)) (omega arith)
          ∙ hex_digits-atob i num true rest word refl
      | inr hidden ↦
          ap (λ l. atob_loop 16 (num / 16 ^ suc i) (l ++ rest))
            (hex_digits-hidden i num flag hidden)
          ∙ ap (λ v. atob_loop 16 v (hex_digits i num false ++ rest)) (ground arith)
          ∙ hex_digits-atob i num false rest word (ground arith)
    ]

all_hex-hex_digits : (i num : ℕ) (flag : Bool) → all_hex (hex_digits i num flag) ≡ true
unfolding hex_digits
all_hex-hex_digits zero num flag = refl
all_hex-hex_digits (suc i) num flag =
    let d = value_of-hex_digit (num / 16 ^ i % 16) (omega arith) in
    elim (Bool-cases (flag || ltb 0 (num / 16 ^ i % 16))) [
      | inl shown ↦
          ap all_hex (hex_digits-shown i num flag shown)
          ∙ rw (d, is_hex) (all_hex-hex_digits i num true)
      | inr hidden ↦
          ap all_hex (hex_digits-hidden i num flag hidden) ∙ all_hex-hex_digits i num false
    ]

-- Behind the two bytes 0x the base is 16, whatever it was.
atob_at-0x :
    (s rest : List ℕ) (base : ℕ)
    → all_hex s ≡ true
    → atob_at (b'0' ∷ b'x' ∷ (s ++ (0 ∷ rest))) base ≡ atob_loop 16 0 (s ++ (0 ∷ rest))
unfolding atob_depth has_0x
atob_at-0x s rest base h = rw (no-point s rest h) refl

-- What `itoa` writes for a word is read by `_atob` as that word, in whatever base it is called and
-- whatever follows the string.
pub itoa-atob :
    (num base : ℕ) (rest : List ℕ)
    → num < 2 ^ 32
    → atob_at (itoa num ++ (0 ∷ rest)) base ≡ ok (some num)
unfolding itoa atob_loop
itoa-atob num base rest word = elim (Bool-cases (num == 0)) [
  | inl z ↦
      let q : 0 ≡ num = ground arith in
      rw z (atob_at-0x (b'0' ∷ []) rest base refl ∙ ap (λ n. ok (some n)) q)
  | inr nz ↦
      let start : num / 16 ^ 8 ≡ 0 = omega arith in
      rw nz (
        atob_at-0x (hex_digits 8 num false) rest base (all_hex-hex_digits 8 num false)
        ∙ ap (λ v. atob_loop 16 v (hex_digits 8 num false ++ (0 ∷ rest))) (sym start)
        ∙ hex_digits-atob 8 num false (0 ∷ rest) word (ground arith))
]
