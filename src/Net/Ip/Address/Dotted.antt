-- ===== src/Net/Ip/Address/Dotted.antt =====
-- `inet_aton` of net/ip.c on four decimal numbers with dots between.
use jnix.Prelude.{
  ℕ, suc, ◌+◌, ◌-◌, ◌*◌, ◌^◌, ◌≤◌, ◌<◌, ◌≡◌, refl, ap, ◌∙◌, inl, inr, ◌&&◌, Bool, true, false, none,
  some, List, [], ◌∷◌, ◌++◌, arith, ltb, ◌==◌, add32, mul32, u32_mod, Bool-cases, ok, ◌>>=◌,
}
use jnix.Net.Ip.Address.{
  isdigit, isascii, next_val, collect, base_of, number_at, behind, read_parts, concoct, trailing,
  inet_aton,
}

-- The value of decimal digits behind others of value `val`.
abbrev pub value_from : ℕ → List ℕ → ℕ
value_from val [] = val
value_from val (d ∷ ds) = value_from (val * 10 + (d - b'0')) ds

abbrev pub all_digits : List ℕ → Bool
all_digits [] = true
all_digits (d ∷ ds) = isdigit d && all_digits ds

-- A number as it is written: digits of which the first is not 0, or a single 0.
pub data Decimal : List ℕ → ℕ → Type 0 where
  zero_digit : Decimal (b'0' ∷ []) 0
  digits :
      {d : ℕ} {ds : List ℕ}
      → isdigit d ≡ true
      → (d == b'0') ≡ false
      → all_digits ds ≡ true
      → Decimal (d ∷ ds) (value_from 0 (d ∷ ds))

value_from-le : (val : ℕ) (ds : List ℕ) → val ≤ value_from val ds
value_from-le val [] = omega arith
value_from-le val (d ∷ ds) = omega (arith, value_from-le (val * 10 + (d - b'0')) ds)

next_val-digit :
    (val d : ℕ)
    → isdigit d ≡ true
    → val * 10 + (d - b'0') < u32_mod
    → next_val 10 val d ≡ some (val * 10 + (d - b'0'))
unfolding next_val
next_val-digit val d h lt =
    let ascii : isascii d ≡ true = ground arith in
    let sum : add32 (mul32 val 10) (d - b'0') ≡ val * 10 + (d - b'0') = omega arith in
    rw ascii (rw h (rw sum refl))

next_val-stop :
    (base val c : ℕ) → isdigit c ≡ false → (base == 16) ≡ false → next_val base val c ≡ none
unfolding next_val
next_val-stop base val c h b = elim (Bool-cases (isascii c)) [
  | inl a ↦ rw a (rw h (rw b refl))
  | inr a ↦ rw a (rw b refl)
]

collect-stop :
    (base val c : ℕ) (rest : List ℕ)
    → isdigit c ≡ false
    → (base == 16) ≡ false
    → collect base val (c ∷ rest) ≡ ok (val, c ∷ rest)
unfolding collect
collect-stop base val c rest stop b = rw (next_val-stop base val c stop b, collect) refl

collect-next :
    (base val c v : ℕ) (rest : List ℕ)
    → next_val base val c ≡ some v
    → collect base val (c ∷ rest) ≡ collect base v rest
unfolding collect
collect-next base val c v rest h = rw (h, collect) refl

collect-digits :
    (val : ℕ) (ds : List ℕ) (c : ℕ) (rest : List ℕ)
    → all_digits ds ≡ true
    → isdigit c ≡ false
    → value_from val ds < u32_mod
    → collect 10 val (ds ++ (c ∷ rest)) ≡ ok (value_from val ds, c ∷ rest)
collect-digits val [] c rest h stop lt = collect-stop 10 val c rest stop refl
collect-digits val (d ∷ ds) c rest h stop lt =
    let first : isdigit d ≡ true = ground arith in
    let more : all_digits ds ≡ true = ground arith in
    let le = value_from-le (val * 10 + (d - b'0')) ds in
    collect-next 10 val d (val * 10 + (d - b'0')) (ds ++ (c ∷ rest))
      (next_val-digit val d first (omega arith))
    ∙ collect-digits (val * 10 + (d - b'0')) ds c rest more stop lt

base_of-digit :
    (d : ℕ) (ds : List ℕ) (c : ℕ) (rest : List ℕ)
    → (d == b'0') ≡ false
    → base_of (d ∷ (ds ++ (c ∷ rest))) ≡ ok (10, d ∷ (ds ++ (c ∷ rest)))
unfolding base_of
base_of-digit d [] c rest h = rw h refl
base_of-digit d (e ∷ ds) c rest h = rw h refl

number_at-Decimal :
    (ds : List ℕ) (n : ℕ)
    → Decimal ds n
    → (c : ℕ) (rest : List ℕ) → isdigit c ≡ false
    → (c == b'x') ≡ false
    → (c == b'X') ≡ false
    → n < u32_mod
    → number_at (ds ++ (c ∷ rest)) ≡ ok (n, c ∷ rest)
unfolding number_at base_of
number_at-Decimal _ _ zero_digit c rest stop x y lt =
    rw x (rw y (collect-stop 8 0 c rest stop refl))
number_at-Decimal _ _ (digits {d} {ds} first nonzero more) c rest stop x y lt =
    ap (λ r. r >>= λ p. collect p.0 0 p.1) (base_of-digit d ds c rest nonzero)
    ∙ collect-digits 0 (d ∷ ds) c rest (ground arith) stop lt

read_parts-part :
    (left : ℕ) (parts ds : List ℕ) (n : ℕ) (cp : List ℕ)
    → Decimal ds n
    → n < 256
    → read_parts (suc left) parts (ds ++ (b'.' ∷ cp)) ≡ read_parts left (parts ++ (n ∷ [])) cp
unfolding read_parts behind
read_parts-part left parts ds n cp w lt =
    let small : ltb 0xff n ≡ false = ground arith in
    rw (number_at-Decimal ds n w b'.' cp refl refl refl (omega arith)) (rw small refl)

read_parts-last :
    (parts ds : List ℕ) (n : ℕ) (rest : List ℕ)
    → Decimal ds n
    → n < 256
    → read_parts 0 parts (ds ++ (0 ∷ rest)) ≡ ok (some (parts, (n, 0 ∷ rest)))
unfolding read_parts behind
read_parts-last parts ds n rest w lt =
    rw (number_at-Decimal ds n w 0 rest refl refl refl (omega arith)) refl

-- Four decimal numbers below 256 with dots between are read as the address that has them as its
-- bytes, the first the highest.
pub inet_aton-dotted :
    (ps qs ss ts rest : List ℕ) (p q s t : ℕ)
    → Decimal ps p
    → Decimal qs q
    → Decimal ss s
    → Decimal ts t
    → p < 256
    → q < 256
    → s < 256
    → t < 256
    → inet_aton (ps ++ (b'.' ∷ (qs ++ (b'.' ∷ (ss ++ (b'.' ∷ (ts ++ (0 ∷ rest))))))))
      ≡ ok (t + (p * 2 ^ 24 + q * 2 ^ 16 + s * 2 ^ 8))
unfolding inet_aton trailing concoct
inet_aton-dotted ps qs ss ts rest p q s t wp wq ws wt lp lq ls lt =
    let third = ts ++ (0 ∷ rest) in
    let second = ss ++ (b'.' ∷ third) in
    let first = qs ++ (b'.' ∷ second) in
    let small : ltb 0xff t ≡ false = ground arith in
    rw (read_parts-part 2 [] ps p first wp lp) (
      rw (read_parts-part 1 (p ∷ []) qs q second wq lq) (
        rw (read_parts-part 0 (p ∷ q ∷ []) ss s third ws ls)
          (rw (read_parts-last (p ∷ q ∷ s ∷ []) ts t rest wt lt) (rw small refl))))
