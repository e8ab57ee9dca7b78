-- ===== src/Drivers/Keyboard/Read/Bytes.antt =====
-- What the interrupts of the keyboard come to: each byte is handled at once, by itself.
use jnix.Prelude.{
  ℕ, ◌≡◌, refl, subst, ap, ◌∙◌, inl, inr, Bool, true, false, List, [], ◌∷◌, arith, map, ◌==◌,
  if◌then◌else◌, Bool-cases, Run, ok, panicked, fault, stuck, ◌>>=◌,
}
use jnix.Drivers.Inbuf.{Inbuf, pop_buf}
use jnix.Drivers.Inbuf.Fifo.{Holds, get_tail_lem, put_lem, pop_buf_lem}
use jnix.Drivers.Keyboard.{Keyboard}
use jnix.Drivers.Keyboard.Read.{decode, keyboard_read, keyboard_handler}
use jnix.Drivers.Keyboard.Read.Once.{
  Input, input_of, with_buffer, is_prefix, press, after, finish, finish-bind, scanned, decode-press,
  round-scanned, read-one, scan-plain, pop_buf-empty, pop-seven, scan-E0, scan-E1, key_of-E0,
  key_of-E1, decode-none,
}

-- Reading a buffer of one byte that is no prefix.
read-plain :
    (kb kb' : Inbuf) (c : ℕ) (make : Bool) (r : Input)
    → is_prefix c ≡ false
    → Holds kb (c ∷ [])
    → pop_buf kb ≡ ok kb'
    → Holds kb' []
    → keyboard_read make (with_buffer kb r) ≡ (press c r >>= λ q. ok (with_buffer kb' q))
read-plain kb kb' c make r h one e none_left =
    read-one (with_buffer kb r) make one.counted
    ∙ ap (λ d. d >>= after)
        (round-scanned (with_buffer kb r) make _
          (scan-plain kb kb' c make h (get_tail_lem kb c [] one) e))
    ∙ finish-bind kb' none_left.counted r.screen
        (decode (scanned kb' c false make) (r.mods, r.ports))
    ∙ ap (λ d. d >>= λ q. ok (with_buffer kb' q)) (decode-press kb' c make r)

-- Reading a buffer of one prefix byte.
read-E0 :
    (kb kb' : Inbuf) (make : Bool) (r : Input)
    → Holds kb (0xE0 ∷ [])
    → pop_buf kb ≡ ok kb'
    → keyboard_read make (with_buffer kb r) ≡ ok (with_buffer kb' r)
read-E0 kb kb' make r one e =
    read-one (with_buffer kb r) make one.counted
    ∙ ap (λ d. d >>= after)
        (round-scanned (with_buffer kb r) make (scanned kb 0xE0 true make)
            (scan-E0 kb make (get_tail_lem kb 0xE0 [] one))
          ∙ ap (λ d. d >>= finish kb r.screen)
              (decode-none kb 0xE0 true make r.mods r.ports (key_of-E0 r.mods) refl))
    ∙ ap (λ d. d >>= λ b. ok (with_buffer b r)) e

read-E1 :
    (kb kb' : Inbuf) (make : Bool) (r : Input)
    → Holds kb (0xE1 ∷ [])
    → pop_buf kb ≡ ok kb'
    → Holds kb' []
    → keyboard_read make (with_buffer kb r) ≡ ok (with_buffer kb' r)
read-E1 kb kb' make r one e none_left =
    read-one (with_buffer kb r) make one.counted
    ∙ ap (λ d. d >>= after)
        (round-scanned (with_buffer kb r) make (scanned kb' 0xE1 false make) (
            scan-E1 kb kb' make (get_tail_lem kb 0xE1 [] one)
              (pop-seven kb kb' e none_left.counted))
          ∙ ap (λ d. d >>= finish kb' r.screen)
              (decode-none kb' 0xE1 false make r.mods r.ports (key_of-E1 r.mods) refl))
    ∙ ap (λ d. d >>= λ b. ok (with_buffer b r)) (pop_buf-empty kb' none_left.counted)

read-prefix :
    (kb kb' : Inbuf) (c : ℕ) (make : Bool) (r : Input)
    → is_prefix c ≡ true
    → Holds kb (c ∷ [])
    → pop_buf kb ≡ ok kb'
    → Holds kb' []
    → keyboard_read make (with_buffer kb r) ≡ ok (with_buffer kb' r)
read-prefix kb kb' c make r prefix one e none_left = elim (Bool-cases (c == 0xE0)) [
  | inl first ↦
      let q : c ≡ 0xE0 = ground arith in
      read-E0 kb kb' make r (subst (λ n. Holds kb (n ∷ [])) q one) e
  | inr second ↦
      let q : c ≡ 0xE1 = ground arith in
      read-E1 kb kb' make r (subst (λ n. Holds kb (n ∷ [])) q one) e none_left
]

-- What one byte comes to: nothing for a prefix, else its key.
abbrev pub typed_one : ℕ → Input → Run Input
typed_one c r = if is_prefix c then ok r else press c r

-- An interrupt with an empty buffer handles its byte at once, or drops it if it is a prefix, and
-- leaves the buffer empty.
pub keyboard_handler_lem :
    (k : Keyboard) (c : ℕ) (make : Bool)
    → Holds k.kb_in []
    → (kb : Inbuf) × Holds kb []
      × (keyboard_handler c make k ≡ (typed_one c (input_of k) >>= λ r. ok (with_buffer kb r)))
unfolding keyboard_handler
keyboard_handler_lem k c make h =
    let (kb, p, one) = put_lem k.kb_in c [] h in
    let (kb', e, none_left) = pop_buf_lem kb c [] one in
    (kb', none_left, rw p (handled kb kb' e one none_left))
  where
    handled :
        (kb kb' : Inbuf)
        → pop_buf kb ≡ ok kb'
        → Holds kb (c ∷ [])
        → Holds kb' []
        → keyboard_read make (with_buffer kb (input_of k))
          ≡ (typed_one c (input_of k) >>= λ r. ok (with_buffer kb' r))
    handled kb kb' e one none_left = elim (Bool-cases (is_prefix c)) [
      | inr plain ↦ rw plain (read-plain kb kb' c make (input_of k) plain one e none_left)
      | inl prefix ↦ rw prefix (read-prefix kb kb' c make (input_of k) prefix one e none_left)
    ]

-- A sequence of interrupts: the byte of each, and what the stack then holds for `make`.
unfoldable pub interrupts : List (ℕ × Bool) → Keyboard → Run Keyboard
interrupts [] k = ok k
interrupts ((c, make) ∷ cs) k = keyboard_handler c make k >>= interrupts cs

unfoldable pub typed : List ℕ → Input → Run Input
typed [] r = ok r
typed (c ∷ cs) r = typed_one c r >>= typed cs

interrupts-bind :
    (cs : List (ℕ × Bool)) (kb : Inbuf) (m : Run Input)
    → Holds kb []
    → ((r : Input)
        → (kb' : Inbuf) × Holds kb' []
          × (interrupts cs (with_buffer kb r)
              ≡ (typed (map (λ (i : ℕ × Bool). i.0) cs) r >>= λ q. ok (with_buffer kb' q))))
    → (kb' : Inbuf) × Holds kb' []
      × ((m >>= (λ r. ok (with_buffer kb r)) >>= interrupts cs)
          ≡ (m >>= typed (map (λ (i : ℕ × Bool). i.0) cs) >>= λ q. ok (with_buffer kb' q)))
interrupts-bind cs kb (ok r) h all = all r
interrupts-bind cs kb panicked h all = (kb, h, refl)
interrupts-bind cs kb fault h all = (kb, h, refl)
interrupts-bind cs kb stuck h all = (kb, h, refl)

-- Any sequence of interrupts from an empty buffer does what its bytes do one by one, each taken by
-- itself: the bytes 0xE0 and 0xE1 do nothing, and any other is the press or release of a key of the
-- first two columns. If none of them stops, the buffer is empty again at the end.
pub interrupts_lem :
    (cs : List (ℕ × Bool)) (k : Keyboard)
    → Holds k.kb_in []
    → (kb : Inbuf) × Holds kb []
      × (interrupts cs k
          ≡ (typed (map (λ (i : ℕ × Bool). i.0) cs) (input_of k) >>= λ r. ok (with_buffer kb r)))
unfolding interrupts typed
interrupts_lem [] k h = (k.kb_in, h, refl)
interrupts_lem ((c, make) ∷ cs) k h =
    let (kb, empty, e) = keyboard_handler_lem k c make h in
    let (kb', empty', e') =
      interrupts-bind cs kb (typed_one c (input_of k)) empty
        (λ r. interrupts_lem cs (with_buffer kb r) empty) in
    (kb', empty', ap (λ d. d >>= interrupts cs) e ∙ e')
