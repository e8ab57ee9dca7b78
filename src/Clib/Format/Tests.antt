-- ===== src/Clib/Format/Tests.antt =====
-- Small runs of the formatting of numbers and text, and the theorems at them.
use jnix.Prelude.{
  ℕ, ◌+◌, ◌≤◌, ◌≡◌, ◌≢◌, refl, inl, some, true, false, List, [], ◌∷◌, ◌++◌, arith, length, minus,
  ok, stuck,
}
use jnix.Clib.Strings.{strchr, strncpy}
use jnix.Clib.Numbers.{
  skip_atoi, atob_fixed, convert, emit, number, rounds, size_after, atob_at, atob_depth, atob_loop,
  has_0x,
}
use jnix.Clib.Numbers.Moderate.{max}
use jnix.Clib.Numbers.Back.{plain, number-atob}
use jnix.Clib.Numbers.Width.{number-width}
use jnix.Clib.Format.{
  int_arg, word_of, next_word, put_char_arg, string_arg, no_flags, next_arg, text_of, take_flags,
  take_width, take_precision, put_string, put_conversion, put_rest, put_directive, put_format,
  vsprintf,
}
use jnix.Clib.Format.Ends.{vsprintf_terminates}

-- -255 as %05d prints it.
number_test :
    number (minus 255) 10 6 0 (record no_flags { zeropad = true; sign = true })
    ≡ some (b'-' ∷ b'0' ∷ b'0' ∷ b'2' ∷ b'5' ∷ b'5' ∷ [])
unfolding number convert emit rounds size_after
number_test = refl

-- "1.8" in base 16 is a number of 16.16 bits.
fixed_test : atob_at (b'1' ∷ b'.' ∷ b'8' ∷ 0 ∷ []) 16 ≡ ok (some (65536 + 8))
unfolding atob_depth has_0x strchr atob_fixed strncpy atob_loop
fixed_test = refl

-- 5 as %3d prints it, with no precision.
width_test :
    number 5 10 3 (minus 1) (record no_flags { sign = true }) ≡ some (b' ' ∷ b' ' ∷ b'5' ∷ [])
unfolding number convert emit rounds size_after
width_test = refl

-- "[%3c]"
char_test :
    vsprintf (b'[' ∷ b'%' ∷ b'3' ∷ b'c' ∷ b']' ∷ []) (int_arg b'a' ∷ [])
    ≡ ok (record { str = b'[' ∷ b' ' ∷ b' ' ∷ b'a' ∷ b']' ∷ []; stores = []; args = [] })
unfolding vsprintf put_format put_directive take_width take_flags take_precision skip_atoi put_rest
    put_conversion put_char_arg next_word next_arg word_of rounds
char_test = refl

-- "[%-3s]"
string_test :
    vsprintf (b'[' ∷ b'%' ∷ b'-' ∷ b'3' ∷ b's' ∷ b']' ∷ []) (string_arg (b'a' ∷ []) ∷ [])
    ≡ ok (record { str = b'[' ∷ b'a' ∷ b' ' ∷ b' ' ∷ b']' ∷ []; stores = []; args = [] })
unfolding vsprintf put_format put_directive take_width take_flags take_precision skip_atoi put_rest
    put_conversion put_string next_arg text_of rounds
string_test = refl

number-atob_example :
    (s : List ℕ) × (number 255 16 4 0 (plain true false true) ≡ some s)
    × (atob_at (s ++ (0 ∷ [])) 16 ≡ ok (some 255))
number-atob_example =
    number-atob 255 16 4 0 true false true [] (omega arith) (omega arith) (omega arith) refl
      (inl (omega arith)) (inl (omega arith)) (inl refl)

number-width_example :
    (s : List ℕ) × (number 255 8 4 2 (plain false false true) ≡ some s)
    × (rounds 4 ≤ length s)
    × (rounds 2 ≤ length s)
    × (length s ≤ max (rounds 4) (3 + max (rounds 2) 32))
number-width_example =
    number-width 255 8 4 2 (plain false false true) (omega arith) (omega arith) (inl (omega arith))
      (inl (omega arith))

vsprintf_terminates_example : vsprintf (b'%' ∷ b'd' ∷ []) [] ≢ stuck
vsprintf_terminates_example = vsprintf_terminates (b'%' ∷ b'd' ∷ []) []
