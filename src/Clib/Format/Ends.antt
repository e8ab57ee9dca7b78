-- ===== src/Clib/Format/Ends.antt =====
-- `vsprintf` of lib/stdio.c ends on every format.
use jnix.Prelude.{
  ℕ, zero, suc, ◌+◌, ◌-◌, ◌≤◌, ◌<◌, ◌≡◌, ◌≢◌, refl, subst, inl, inr, Bool, true, false, ◌||◌,
  Option, none, some, Option-cases, List, [], ◌∷◌, arith, length, ◌==◌, if◌then◌else◌, Bool-cases,
  Run, ok, panicked, fault, stuck, deref, Ends, Ends-bind, add32, mul32, minus,
}
use jnix.Clib.Numbers.{Flags, number, is_digit, skip_atoi}
use jnix.Clib.Format.{
  Arg, int_arg, pointer_arg, string_arg, Output, put_bytes, next_arg, word_of, text_of, next_word,
  no_flags, flag_of, take_flags, take_width, point_precision, take_precision, drop_qualifier,
  put_number, put_char_arg, put_string, put_count, put_conversion, put_rest, put_directive,
  put_format, vsprintf,
}

-- Nothing is said of the value.
abbrev Any {ℓ} : {A : Type ℓ} → A → Type 0
Any a = true ≡ true

Ends-weaken {ℓ} :
    {A : Type ℓ} (P Q : A → Type 0) (m : Run A) → Ends P m → ((a : A) → P a → Q a) → Ends Q m
Ends-weaken P Q (ok a) h k = k a h
Ends-weaken P Q panicked h k = refl
Ends-weaken P Q fault h k = refl
Ends-weaken P Q stuck h k = h

length-take_flags : (fmt : List ℕ) (f : Flags) → length (take_flags fmt f).1 ≤ length fmt
unfolding take_flags
length-take_flags [] f = omega arith
length-take_flags (c ∷ fmt) f = elim (Option-cases (flag_of c f)) [
  | inl n ↦ rw (n, take_flags) (omega arith)
  | inr (g, e) ↦ rw (e, take_flags) (omega (arith, length-take_flags fmt g))
]

length-skip_atoi : (i : ℕ) (s : List ℕ) → length (skip_atoi i s).1 ≤ length s
unfolding skip_atoi
length-skip_atoi i [] = omega arith
length-skip_atoi i (c ∷ s) = elim (Bool-cases (is_digit c)) [
  | inl d ↦ rw (d, skip_atoi) (omega (arith, length-skip_atoi (add32 (mul32 i 10) (c - b'0')) s))
  | inr d ↦ rw (d, skip_atoi) (omega arith)
]

next_arg-Ends_at : (o : Output) (args : List Arg) → o.args ≡ args → Ends Any (next_arg o)
unfolding next_arg
next_arg-Ends_at o [] e = rw (e, next_arg) refl
next_arg-Ends_at o (a ∷ args) e = rw (e, next_arg) refl

next_arg-Ends : (o : Output) → Ends Any (next_arg o)
next_arg-Ends o = next_arg-Ends_at o o.args refl

word_of-Ends : (a : Arg) → Ends Any (word_of a)
unfolding word_of
word_of-Ends (int_arg n) = refl
word_of-Ends (pointer_arg n) = refl
word_of-Ends (string_arg s) = refl

text_of-Ends : (a : Arg) → Ends Any (text_of a)
unfolding text_of
text_of-Ends (int_arg n) = refl
text_of-Ends (pointer_arg n) = refl
text_of-Ends (string_arg s) = refl

next_word-Ends : (o : Output) → Ends Any (next_word o)
unfolding next_word
next_word-Ends o =
    Ends-bind Any Any (next_arg o) _ (next_arg-Ends o)
      (λ r h. Ends-bind Any Any (word_of r.0) _ (word_of-Ends r.0) (λ n h'. refl))

-- The format that a step leaves is no longer than the one it had.
abbrev Within : ℕ → List ℕ → Type 0
Within n fmt = length fmt ≤ n

take_width-Ends :
    (f : Flags) (fmt : List ℕ) (o : Output)
    → Ends (λ (r : ℕ × Flags × List ℕ × Output). Within (length fmt) r.2) (take_width f fmt o)
unfolding take_width
take_width-Ends f [] o = omega arith
take_width-Ends f (c ∷ fmt) o = elim (Bool-cases (is_digit c)) [
  | inl d ↦ rw (d, take_width) (length-skip_atoi 0 (c ∷ fmt))
  | inr d ↦ elim (Bool-cases (c == b'*')) [
    | inl s ↦
        rw (d, take_width)
          (rw s (Ends-bind Any _ (next_word o) _ (next_word-Ends o) (λ r h. omega arith)))
    | inr s ↦ rw (d, take_width) (rw s (omega arith))
  ]
]

point_precision-Ends :
    (fmt : List ℕ) (o : Output)
    → Ends (λ (r : ℕ × List ℕ × Output). Within (length fmt) r.1) (point_precision fmt o)
unfolding point_precision
point_precision-Ends [] o = omega arith
point_precision-Ends (c ∷ fmt) o = elim (Bool-cases (is_digit c)) [
  | inl d ↦ rw (d, point_precision) (length-skip_atoi 0 (c ∷ fmt))
  | inr d ↦ elim (Bool-cases (c == b'*')) [
    | inl s ↦
        rw (d, point_precision)
          (rw s (Ends-bind Any _ (next_word o) _ (next_word-Ends o) (λ r h. omega arith)))
    | inr s ↦ rw (d, point_precision) (rw s (omega arith))
  ]
]

take_precision-Ends :
    (fmt : List ℕ) (o : Output)
    → Ends (λ (r : ℕ × List ℕ × Output). Within (length fmt) r.1) (take_precision fmt o)
unfolding take_precision
take_precision-Ends [] o = omega arith
take_precision-Ends (c ∷ fmt) o = elim (Bool-cases (c == b'.')) [
  | inl d ↦
      rw (d, take_precision)
        (Ends-weaken _ _ (point_precision fmt o) (point_precision-Ends fmt o)
          (λ r h. omega (arith, h)))
  | inr d ↦ rw (d, take_precision) (omega arith)
]

length-drop_qualifier : (fmt : List ℕ) → length (drop_qualifier fmt) ≤ length fmt
length-drop_qualifier [] = omega arith
length-drop_qualifier (c ∷ fmt) = ground arith

deref-Ends : (s : Option (List ℕ)) → Ends Any (deref s)
deref-Ends none = refl
deref-Ends (some s) = refl

put_number-Ends :
    (base width precision : ℕ) (f : Flags) (o : Output)
    → Ends Any (put_number base width precision f o)
unfolding put_number
put_number-Ends base width precision f o =
    Ends-bind Any Any (next_word o) _ (next_word-Ends o)
      (λ r h. Ends-bind Any Any _ _ (deref-Ends (number r.0 base width precision f)) (λ s h'. refl))

put_char_arg-Ends : (width : ℕ) (f : Flags) (o : Output) → Ends Any (put_char_arg width f o)
unfolding put_char_arg
put_char_arg-Ends width f o = Ends-bind Any Any (next_word o) _ (next_word-Ends o) (λ r h. refl)

put_string-Ends :
    (width precision : ℕ) (f : Flags) (o : Output) → Ends Any (put_string width precision f o)
unfolding put_string
put_string-Ends width precision f o =
    Ends-bind Any Any (next_arg o) _ (next_arg-Ends o)
      (λ r h. Ends-bind Any Any (text_of r.0) _ (text_of-Ends r.0) (λ s h'. refl))

put_count-Ends : (o : Output) → Ends Any (put_count o)
unfolding put_count
put_count-Ends o = Ends-bind Any Any (next_word o) _ (next_word-Ends o) (λ r h. refl)

if-Ends : (b : Bool) (m n : Run Output) → Ends Any m → Ends Any n → Ends Any (if b then m else n)
if-Ends true m n h k = h
if-Ends false m n h k = k

put_conversion-Ends :
    (c width precision : ℕ) (f : Flags) (o : Output)
    → Ends Any (put_conversion c width precision f o)
unfolding put_conversion
put_conversion-Ends c width precision f o =
    let n = λ (base w : ℕ) (g : Flags). put_number-Ends base w precision g o in
    if-Ends (c == b'c') _ _ (put_char_arg-Ends width f o) (
      if-Ends (c == b's') _ _ (put_string-Ends width precision f o) (
        if-Ends (c == b'o') _ _ (n 8 width f) (
          if-Ends (c == b'p') _ _
            (if-Ends (width == minus 1) _ _ (n 16 8 (record f { zeropad = true })) (n 16 width f))
            (if-Ends (c == b'x') _ _ (n 16 width (record f { small = true })) (
              if-Ends (c == b'X') _ _ (n 16 width f) (
                if-Ends ((c == b'd') || (c == b'i')) _ _ (n 10 width (record f { sign = true })) (
                  if-Ends (c == b'u') _ _ (n 10 width f)
                    (if-Ends (c == b'n') _ _ (put_count-Ends o) refl))))))))

put_rest-Ends :
    (width precision : ℕ) (f : Flags) (o : Output) (fmt : List ℕ) (n : ℕ)
    → length fmt ≤ n
    → Ends (λ (r : Output × List ℕ). Within n r.1) (put_rest width precision f o fmt)
unfolding put_rest
put_rest-Ends width precision f o [] n le = omega arith
put_rest-Ends width precision f o (c ∷ fmt) n le =
    Ends-bind Any _ (put_conversion c width precision f o) _
      (put_conversion-Ends c width precision f o) (λ r h. omega (arith, le))

put_directive-Ends :
    (fmt : List ℕ) (o : Output)
    → Ends (λ (r : Output × List ℕ). Within (length fmt) r.1) (put_directive fmt o)
unfolding put_directive
put_directive-Ends fmt o =
    let flags = take_flags fmt no_flags in
    let le = length-take_flags fmt no_flags in
    Ends-bind _ _ (take_width flags.0 flags.1 o) _ (take_width-Ends flags.0 flags.1 o)
      (λ (w : ℕ × Flags × List ℕ × Output) h.
        Ends-bind _ _ (take_precision w.2 w.3) _ (take_precision-Ends w.2 w.3)
          (λ (p : ℕ × List ℕ × Output) k.
            let last = length-drop_qualifier p.1 in
            put_rest-Ends w.0 p.0 w.1 p.2 (drop_qualifier p.1) (length fmt) (omega (arith, h, k))))

put_format-Ends :
    (fuel : ℕ) (fmt : List ℕ) (o : Output) → length fmt < fuel → Ends Any (put_format fuel fmt o)
unfolding put_format
put_format-Ends zero fmt o lt = absurd (omega arith)
put_format-Ends (suc fuel) [] o lt = refl
put_format-Ends (suc fuel) (c ∷ fmt) o lt = elim (Bool-cases (c == b'%')) [
  | inr plain ↦
      rw (plain, put_format) (put_format-Ends fuel fmt (put_bytes o (c ∷ [])) (omega arith))
  | inl directive ↦
      rw (directive, put_format)
        (Ends-bind _ Any (put_directive fmt o) _ (put_directive-Ends fmt o)
          (λ (r : Output × List ℕ) h. put_format-Ends fuel r.1 r.0 (omega (arith, h))))
]

Ends-stuck {ℓ} : {A : Type ℓ} (P : A → Type 0) (m : Run A) → Ends P m → m ≢ stuck
Ends-stuck P m h e = let h' = subst (Ends P) e h in absurd (ground arith)

-- On every format and every list of arguments, `vsprintf` comes to an end: its loop never needs more
-- rounds than the format has bytes, and one.
pub vsprintf_terminates : (fmt : List ℕ) (args : List Arg) → vsprintf fmt args ≢ stuck
unfolding vsprintf
vsprintf_terminates fmt args =
    let start : Output = record { str = []; stores = []; args = args } in
    Ends-stuck Any (put_format (length fmt + 1) fmt start)
      (put_format-Ends (length fmt + 1) fmt start (omega arith))
