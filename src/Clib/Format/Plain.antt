-- ===== src/Clib/Format/Plain.antt =====
-- What `vsprintf` and `printk` of lib/stdio.c come to on formats without conversions and on %d.
use jnix.Prelude.{
  ℕ, zero, suc, ◌+◌, ◌≤◌, ◌<◌, ◌^◌, ◌≡◌, refl, sym, ap, ◌∙◌, ◌⊎◌, inl, inr, Bool, true, false, ◌&&◌,
  not, List, [], ◌∷◌, ◌++◌, arith, length, get_elem?, set, ltb, ◌==◌, Bool-cases, ok, fault,
  is_negative, some, minus,
}
use jnix.Kernel.Tty.{Console}
use jnix.Kernel.Tty.Screen.{IsValid}
use jnix.Kernel.Tty.Table.{Tty, Screen}
use jnix.Kernel.Tty.Isolation.{Apart, BelongsTo, tty_write_lem}
use jnix.Clib.Numbers.{atob_at, rounds}
use jnix.Clib.Numbers.Moderate.{Moderate}
use jnix.Clib.Numbers.Back.{number-atob}
use jnix.Clib.Format.{
  Arg, int_arg, Output, put_bytes, next_arg, word_of, next_word, take_flags, take_width,
  take_precision, put_number, put_conversion, put_rest, put_directive, put_format, vsprintf, printk,
}

-- No byte is a '%'.
abbrev pub no_directive : List ℕ → Bool
no_directive [] = true
no_directive (c ∷ fmt) = not (c == b'%') && no_directive fmt

append_cons {ℓ} :
    {A : Type ℓ} → (xs : List A) (y : A) (ys : List A) → (xs ++ (y ∷ [])) ++ ys ≡ xs ++ (y ∷ ys)
append_cons [] y ys = refl
append_cons (x ∷ xs) y ys = ap (λ l. x ∷ l) (append_cons xs y ys)

append_nil {ℓ} : {A : Type ℓ} → (xs : List A) → xs ++ [] ≡ xs
append_nil [] = refl
append_nil (x ∷ xs) = ap (λ l. x ∷ l) (append_nil xs)

put_format-copies :
    (fuel : ℕ) (fmt : List ℕ) (o : Output)
    → length fmt < fuel
    → no_directive fmt ≡ true
    → put_format fuel fmt o ≡ ok (put_bytes o fmt)
unfolding put_format
put_format-copies zero fmt o lt h = absurd (omega arith)
put_format-copies (suc fuel) [] o lt h =
    ap (λ s. ok (record o { str = s })) (sym (append_nil o.str))
put_format-copies (suc fuel) (c ∷ fmt) o lt h =
    let other : (c == b'%') ≡ false = ground arith in
    rw (other, put_format)
      (put_format-copies fuel fmt (put_bytes o (c ∷ [])) (omega arith) (ground arith)
        ∙ ap (λ s. ok (record o { str = s })) (append_cons o.str c fmt))

-- A format without a '%' is copied, and no argument is used.
pub vsprintf-copies :
    (fmt : List ℕ) (args : List Arg)
    → no_directive fmt ≡ true
    → vsprintf fmt args ≡ ok (record { str = fmt; stores = []; args = args })
unfolding vsprintf
vsprintf-copies fmt args h =
    put_format-copies (length fmt + 1) fmt (record { str = []; stores = []; args = args })
      (omega arith) h

-- What %d prints for an int that is not negative is read by `_atob` as that int.
pub vsprintf-atob :
    (n : ℕ) (args : List Arg) (rest : List ℕ)
    → n < 2 ^ 31
    → (s : List ℕ) × (vsprintf (b'%' ∷ b'd' ∷ []) (int_arg n ∷ args)
        ≡ ok (record { str = s; stores = []; args = args }))
      × (atob_at (s ++ (0 ∷ rest)) 10 ≡ ok (some n))
unfolding vsprintf put_format put_directive take_flags take_width take_precision put_rest
    put_conversion put_number next_word next_arg word_of rounds
vsprintf-atob n args rest lt =
    let pos : is_negative n ≡ false = ground arith in
    let none_asked : Moderate (minus 1) = inr (omega arith, omega arith) in
    let (s, printed, read) =
      number-atob n 10 (minus 1) (minus 1) false true false rest (omega arith) (omega arith)
        (omega arith) pos none_asked none_asked (inr refl) in
    (s, rw printed refl, read)

-- Printing on a valid first console: if the text has less than 1024 bytes, its length is returned,
-- that console stays valid, no other entry of the table changes, and no cell of a console apart from
-- it; if not, the buffer overflows.
printk_lem :
    (format : List ℕ) (args : List Arg) (s : Screen) (o : Output) (tty : Tty)
    → vsprintf format args ≡ ok o
    → get_elem? s.tty_table 0 ≡ some tty
    → IsValid tty.console
    → ((length o.str < 1024)
        × ((s' : Screen) × (c : Console) × (printk format args s ≡ ok (length o.str, s'))
            × IsValid c
            × (s'.tty_table ≡ set s.tty_table 0 (record tty { console = c }))
            × ((e : Console) (a : ℕ)
                → Apart tty.console e
                → BelongsTo e a
                → s'.display.vmem a ≡ s.display.vmem a)))
      ⊎ ((1024 ≤ length o.str) × (printk format args s ≡ fault))
unfolding printk
printk_lem format args s o tty text here valid = elim (Bool-cases (ltb (length o.str) 1024)) [
  | inr long ↦ inr (ground arith, rw text (rw long refl))
  | inl short ↦
      let (s', c, run, v, region, table, others) =
        tty_write_lem s 0 tty o.str (length o.str) here valid (omega arith) in
      inl (ground arith, (s', c, rw text (rw short run), v, table, others))
]
