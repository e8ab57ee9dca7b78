-- ===== src/Clib/Format.antt =====
-- `vsprintf`, `sprintf` and `printk` of lib/stdio.c. A format is its bytes without the 0 behind them,
-- an int is its 32 bits.
pub mod Ends
pub mod Plain
mod Tests
use jnix.Prelude.{
  ℕ, zero, suc, ◌+◌, ◌-◌, ◌*◌, ◌%◌, ◌^◌, Bool, true, false, ◌&&◌, ◌||◌, not, Option, none, some,
  List, [], ◌∷◌, ◌++◌, length, ltb, leb, ◌==◌, if◌then◌else◌, Run, ok, fault, stuck, ◌>>=◌, deref,
  sub32, is_negative, minus,
}
use jnix.Kernel.Tty.Table.{Screen, tty_write}
use jnix.Clib.Numbers.{Flags, rounds, spaces, number, is_digit, skip_atoi}

-- An argument behind the format. A string is its bytes without the 0; its address is not modelled.
pub data Arg : Type 0 where
  int_arg : ℕ → Arg
  pointer_arg : ℕ → Arg
  string_arg : List ℕ → Arg

-- What is written so far, to the buffer and through the pointers of %n, and the arguments left.
pub record Output : Type 0 where
  pub str : List ℕ
  pub stores : List (ℕ × ℕ)
  pub args : List Arg

abbrev pub put_bytes : Output → List ℕ → Output
put_bytes o s = record o { str = o.str ++ s }

-- `va_arg`: nothing is known of what lies behind the last argument.
unfoldable pub next_arg : Output → Run (Arg × Output)
next_arg o = elim o.args [ [] ↦ fault | a ∷ args ↦ ok (a, record o { args = args }) ]

unfoldable pub word_of : Arg → Run ℕ
word_of (int_arg n) = ok n
word_of (pointer_arg a) = ok a
word_of (string_arg s) = fault

unfoldable pub text_of : Arg → Run (List ℕ)
text_of (int_arg n) = fault
text_of (pointer_arg a) = fault
text_of (string_arg s) = ok s

unfoldable pub next_word : Output → Run (ℕ × Output)
next_word o = do (a, o') ← next_arg o; n ← word_of a; ok (n, o')

-- `if (precision < 0) precision = 0;`
abbrev pub natural : ℕ → ℕ
natural n = if is_negative n then 0 else n

abbrev pub no_flags : Flags
no_flags = record {
  zeropad = false;
  sign = false;
  plus = false;
  space = false;
  left = false;
  special = false;
  small = false;
}

-- The flag that a byte stands for.
abbrev pub flag_of : ℕ → Flags → Option Flags
flag_of c f =
    if c == b'-'
    then some (record f { left = true })
    else if c == b'+'
    then some (record f { plus = true })
    else if c == b' '
    then some (record f { space = true })
    else if c == b'#'
    then some (record f { special = true })
    else if c == b'0'
    then some (record f { zeropad = true })
    else none

-- From `repeat:` on: the flags, and what follows them.
unfoldable pub take_flags : List ℕ → Flags → Flags × List ℕ
take_flags [] f = (f, [])
take_flags (c ∷ fmt) f = elim (flag_of c f) [ none ↦ (f, c ∷ fmt) | some f' ↦ take_flags fmt f' ]

-- The field width. After '*' the format is not moved on.
unfoldable pub take_width : Flags → List ℕ → Output → Run (ℕ × Flags × List ℕ × Output)
take_width f [] o = ok (minus 1, f, [], o)
take_width f (c ∷ fmt) o =
    if is_digit c
    then ok ((skip_atoi 0 (c ∷ fmt)).0, f, (skip_atoi 0 (c ∷ fmt)).1, o)
    else if c == b'*'
    then (do
      (w, o') ← next_word o
      ok (
        if is_negative w then sub32 0 w else w,
        if is_negative w then record f { left = true } else f,
        c ∷ fmt,
        o',
      ))
    else ok (minus 1, f, c ∷ fmt, o)

-- The precision behind a point; 0 if it is negative.
unfoldable pub point_precision : List ℕ → Output → Run (ℕ × List ℕ × Output)
point_precision [] o = ok (0, [], o)
point_precision (c ∷ fmt) o =
    if is_digit c
    then ok (natural (skip_atoi 0 (c ∷ fmt)).0, (skip_atoi 0 (c ∷ fmt)).1, o)
    else if c == b'*'
    then (do (p, o') ← next_word o; ok (natural p, c ∷ fmt, o'))
    else ok (0, c ∷ fmt, o)

unfoldable pub take_precision : List ℕ → Output → Run (ℕ × List ℕ × Output)
take_precision [] o = ok (minus 1, [], o)
take_precision (c ∷ fmt) o = if c == b'.' then point_precision fmt o else ok (minus 1, c ∷ fmt, o)

abbrev pub drop_qualifier : List ℕ → List ℕ
drop_qualifier [] = []
drop_qualifier (c ∷ fmt) = if (c == b'h') || (c == b'l') || (c == b'L') then fmt else c ∷ fmt

-- `str = number(str, va_arg(args, unsigned long), base, field_width, precision, flags)`
unfoldable pub put_number : ℕ → ℕ → ℕ → Flags → Output → Run Output
put_number base width precision f o = do
  (n, o') ← next_word o
  s ← deref (number n base width precision f)
  ok (put_bytes o' s)

-- `while (--field_width > 0) *str++ = ' ';` and what it leaves in `field_width`.
abbrev pub pad_char : ℕ → List ℕ × ℕ
pad_char width =
    let next = sub32 width 1 in (spaces (rounds next), if is_negative next then next else 0)

unfoldable pub put_char_arg : ℕ → Flags → Output → Run Output
put_char_arg width f o = do
  (c, o') ← next_word o
  let (before, width₁) = if f.left then ([], width) else pad_char width
  let (behind, _) = pad_char width₁
  ok (put_bytes o' (before ++ ((c % 256) ∷ behind)))

abbrev pub first_bytes : ℕ → List ℕ → List ℕ
first_bytes zero s = []
first_bytes (suc n) [] = []
first_bytes (suc n) (c ∷ s) = c ∷ first_bytes n s

-- `while (len < field_width--) *str++ = ' ';` and what it leaves in `field_width`.
abbrev pub pad_text : ℕ → ℕ → List ℕ × ℕ
pad_text len width = (
  spaces (rounds width - len),
  if is_negative width || leb width len then sub32 width 1 else sub32 len 1,
)

unfoldable pub put_string : ℕ → ℕ → Flags → Output → Run Output
put_string width precision f o = do
  (a, o') ← next_arg o
  s ← text_of a
  let text = if is_negative precision then s else first_bytes precision s
  let (before, width₁) = if f.left then ([], width) else pad_text (length text) width
  let (behind, _) = pad_text (length text) width₁
  ok (put_bytes o' (before ++ (text ++ behind)))

-- `*ip = (str - buf);`
unfoldable pub put_count : Output → Run Output
put_count o = do
  (a, o') ← next_word o
  ok (record o' { stores = o'.stores ++ ((a, length o'.str) ∷ []) })

-- `switch (*fmt)` for a byte that is not the 0 at the end.
unfoldable pub put_conversion : ℕ → ℕ → ℕ → Flags → Output → Run Output
put_conversion c width precision f o =
    if c == b'c'
    then put_char_arg width f o
    else if c == b's'
    then put_string width precision f o
    else if c == b'o'
    then put_number 8 width precision f o
    else if c == b'p'
    then (if width == minus 1
        then put_number 16 8 precision (record f { zeropad = true }) o
        else put_number 16 width precision f o)
    else if c == b'x'
    then put_number 16 width precision (record f { small = true }) o
    else if c == b'X'
    then put_number 16 width precision f o
    else if (c == b'd') || (c == b'i')
    then put_number 10 width precision (record f { sign = true }) o
    else if c == b'u'
    then put_number 10 width precision f o
    else if c == b'n'
    then put_count o
    else ok (put_bytes o (if c == b'%' then c ∷ [] else b'%' ∷ c ∷ []))

-- The conversion at the front of the format. At its end there is only the '%' to be written.
unfoldable pub put_rest : ℕ → ℕ → Flags → Output → List ℕ → Run (Output × List ℕ)
put_rest width precision f o [] = ok (put_bytes o (b'%' ∷ []), [])
put_rest width precision f o (c ∷ rest) = do
  o' ← put_conversion c width precision f o
  ok (o', rest)

-- What follows a '%': the output, and the format behind the conversion.
unfoldable pub put_directive : List ℕ → Output → Run (Output × List ℕ)
put_directive fmt o = do
  let flags = take_flags fmt no_flags
  (width, f, fmt₁, o₁) ← take_width flags.0 flags.1 o
  (precision, fmt₂, o₂) ← take_precision fmt₁ o₁
  put_rest width precision f o₂ (drop_qualifier fmt₂)

-- The loop over the format.
unfoldable pub put_format : ℕ → List ℕ → Output → Run Output
put_format zero fmt o = stuck
put_format (suc fuel) [] o = ok o
put_format (suc fuel) (c ∷ fmt) o = elim (c == b'%') [
  | false ↦ put_format fuel fmt (put_bytes o (c ∷ []))
  | true ↦ do r ← put_directive fmt o; put_format fuel r.1 r.0
]

-- The output, without the 0 behind it; the value is its length. One round for each byte of the
-- format, and one more, is enough.
unfoldable pub vsprintf : List ℕ → List Arg → Run Output
vsprintf fmt args = put_format (length fmt + 1) fmt (record { str = []; stores = []; args = args })

-- The buffer has 1024 bytes; what is written behind it destroys the frame.
unfoldable pub printk : List ℕ → List Arg → Screen → Run (ℕ × Screen)
printk format args s = do
  o ← vsprintf format args
  if ltb (length o.str) 1024 then tty_write 0 o.str (length o.str) s else fault
