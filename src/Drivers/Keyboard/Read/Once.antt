-- ===== src/Drivers/Keyboard/Read/Once.antt =====
-- One round of `keyboard_read` on a buffer of one byte: with and without the buffer.
use jnix.Prelude.{
  ℕ, zero, suc, ◌+◌, ◌≡◌, refl, ap, ◌∙◌, inl, inr, ◌||◌, not, Bool, true, false, arith, ◌==◌,
  if◌then◌else◌, Bool-cases, >>=-assoc, >>=-ext, Run, ok, panicked, fault, stuck, ◌>>=◌,
}
use jnix.Kernel.Tty.Table.{Screen}
use jnix.Drivers.Keys
use jnix.Drivers.Inbuf.{Inbuf, get_tail, pop_buf}
use jnix.Drivers.Ports.{Ports}
use jnix.Drivers.Keyboard.{
  Modifiers, Keyboard, has_flag, handle_tty, key_of, track, switch_key, content_of,
}
use jnix.Drivers.Keyboard.Read.{
  Scan, pop_times, popped, match_pause, scan, scan_E0, scan_E1, decode, round, read_loop,
  keyboard_read,
}

-- The keyboard without its buffer.
pub record Input : Type 0 where
  pub mods : Modifiers
  pub ports : Ports
  pub screen : Screen

abbrev pub input_of : Keyboard → Input
input_of k = record { mods = k.mods; ports = k.ports; screen = k.screen }

abbrev pub with_buffer : Inbuf → Input → Keyboard
with_buffer kb r = record { kb_in = kb; mods = r.mods; ports = r.ports; screen = r.screen }

-- The byte that says a key was released has its highest bit set.
abbrev pub is_make : ℕ → Bool
is_make c = not (has_flag c Keys.flag_break)

-- One byte by itself, looked up in the first two columns of the table.
unfoldable pub press : ℕ → Input → Run Input
press c r = do
  key ← key_of r.mods c false
  mp ← switch_key key (is_make c) (r.mods, r.ports)
  if is_make c
      then (do
        screen ← handle_tty (content_of mp.0 key) r.screen
        ok (record { mods = mp.0; ports = mp.1; screen = screen }))
      else ok (record { mods = mp.0; ports = mp.1; screen = r.screen })

-- The bytes 0xE0 and 0xE1, which announce a sequence of bytes.
abbrev pub is_prefix : ℕ → Bool
is_prefix c = (c == 0xE0) || (c == 0xE1)

pub pop_buf-empty : (kb : Inbuf) → kb.count ≡ 0 → pop_buf kb ≡ ok kb
unfolding pop_buf
pop_buf-empty kb h = let e : (kb.count == 0) ≡ true = ground arith in rw e refl

-- The end of a round that leaves the buffer empty.
abbrev pub after : ℕ × Bool × Keyboard → Run Keyboard
after (key, make, k) = elim (key == 0) [
  | true ↦ pop_buf k.kb_in >>= λ kb. ok (record k { kb_in = kb })
  | false ↦ read_loop 1 k key make
]

read_loop-empty :
    (k : Keyboard) (key : ℕ) (make : Bool) → k.kb_in.count ≡ 0 → read_loop 1 k key make ≡ ok k
unfolding read_loop
read_loop-empty k key make h =
    let e : (k.kb_in.count == 0) ≡ true = ground arith in rw (e, read_loop) refl

after-empty :
    (key : ℕ) (make : Bool) (k : Keyboard) → k.kb_in.count ≡ 0 → after (key, make, k) ≡ ok k
after-empty key make k h = elim (Bool-cases (key == 0)) [
  | inl z ↦ rw (z, after) (rw (pop_buf-empty k.kb_in h) refl)
  | inr nz ↦ rw (nz, after) (read_loop-empty k key make h)
]

-- A round behind `decode`, and the same without the buffer.
abbrev pub Decoded : Type 0
Decoded = ℕ × Bool × (Modifiers × Ports)

abbrev pub finish : Inbuf → Screen → Decoded → Run (ℕ × Bool × Keyboard)
finish kb screen (key, make, mp) =
    if make
    then (do
      s ← handle_tty (content_of mp.0 key) screen
      ok (content_of mp.0 key, make, record { kb_in = kb; mods = mp.0; ports = mp.1; screen = s }))
    else ok (key, make, record { kb_in = kb; mods = mp.0; ports = mp.1; screen = screen })

abbrev finish_input : Screen → Decoded → Run Input
finish_input screen (key, make, mp) =
    if make
    then (do
      s ← handle_tty (content_of mp.0 key) screen
      ok (record { mods = mp.0; ports = mp.1; screen = s }))
    else ok (record { mods = mp.0; ports = mp.1; screen = screen })

module _ (kb : Inbuf) (empty : kb.count ≡ 0) where
  abbrev back : Input → Run Keyboard
  back r = ok (with_buffer kb r)

  finish-typed :
      (h : Run Screen) (content : ℕ) (mp : Modifiers × Ports)
      → (h
          >>= (λ s.
              ok (content, true, with_buffer kb (record { mods = mp.0; ports = mp.1; screen = s })))
          >>= after)
        ≡ (h >>= (λ s. ok (record { mods = mp.0; ports = mp.1; screen = s })) >>= back)
  finish-typed (ok s) content mp =
      after-empty content true (with_buffer kb (record { mods = mp.0; ports = mp.1; screen = s }))
        empty
  finish-typed panicked content mp = refl
  finish-typed fault content mp = refl
  finish-typed stuck content mp = refl

  finish-after :
      (screen : Screen) (d : Decoded)
      → (finish kb screen d >>= after) ≡ (finish_input screen d >>= back)
  finish-after screen (key, true, mp) =
      finish-typed (handle_tty (content_of mp.0 key) screen) (content_of mp.0 key) mp
  finish-after screen (key, false, mp) =
      after-empty key false (with_buffer kb (record { mods = mp.0; ports = mp.1; screen = screen }))
        empty

  pub finish-bind :
      (screen : Screen) (d : Run Decoded)
      → (d >>= finish kb screen >>= after) ≡ (d >>= finish_input screen >>= back)
  finish-bind screen (ok d) = finish-after screen d
  finish-bind screen panicked = refl
  finish-bind screen fault = refl
  finish-bind screen stuck = refl

-- What `scan` finds: `code` with or without a prefix, and the buffer empty but for the pop that may
-- follow.
abbrev pub scanned : Inbuf → ℕ → Bool → Bool → Scan
scanned kb c e0 make = record { kb = kb; scan_code = c; code_with_E0 = e0; key = 0; make = make }

pub decode-press :
    (kb : Inbuf) (c : ℕ) (make : Bool) (r : Input)
    → (decode (scanned kb c false make) (r.mods, r.ports) >>= finish_input r.screen) ≡ press c r
unfolding decode press
decode-press kb c make r =
    >>=-assoc (key_of r.mods c false)
      (λ key. switch_key key (is_make c) (r.mods, r.ports) >>= λ mp. ok (key, is_make c, mp))
      (finish_input r.screen)
    ∙ >>=-ext (key_of r.mods c false) _ _ (λ key.
      >>=-assoc (switch_key key (is_make c) (r.mods, r.ports)) (λ mp. ok (key, is_make c, mp))
        (finish_input r.screen))

pub round-scanned :
    (k : Keyboard) (make : Bool) (s : Scan)
    → scan k.kb_in 0 make ≡ ok s
    → round k 0 make ≡ (decode s (k.mods, k.ports) >>= finish s.kb k.screen)
unfolding round
round-scanned k make s e = rw e refl

read_loop-one :
    (k : Keyboard) (make : Bool)
    → k.kb_in.count ≡ 1
    → read_loop 2 k 0 make ≡ (round k 0 make >>= after)
unfolding read_loop
read_loop-one k make h =
    let e : (k.kb_in.count == 0) ≡ false = ground arith in rw (e, read_loop) refl

pub read-one :
    (k : Keyboard) (make : Bool)
    → k.kb_in.count ≡ 1
    → keyboard_read make k ≡ (round k 0 make >>= after)
unfolding keyboard_read
read-one k make h =
    let two : k.kb_in.count + 1 ≡ 2 = omega arith in
    ap (λ n. read_loop n k 0 make) two ∙ read_loop-one k make h

pub scan-plain :
    (kb kb' : Inbuf) (c : ℕ) (make : Bool)
    → is_prefix c ≡ false
    → get_tail kb ≡ ok c
    → pop_buf kb ≡ ok kb'
    → scan kb 0 make ≡ ok (scanned kb' c false make)
unfolding scan popped pop_times
scan-plain kb kb' c make h t e =
    let n1 : (c == 0xE1) ≡ false = ground arith in
    let n2 : (c == 0xE0) ≡ false = ground arith in rw (t, scan) (rw n1 (rw n2 (rw e refl)))

pop_times-empty : (n : ℕ) (kb : Inbuf) → kb.count ≡ 0 → pop_times n kb ≡ ok kb
unfolding pop_times
pop_times-empty zero kb h = refl
pop_times-empty (suc n) kb h = rw (pop_buf-empty kb h, pop_times) (pop_times-empty n kb h)

pub scan-E0 :
    (kb : Inbuf) (make : Bool)
    → get_tail kb ≡ ok 0xE0
    → scan kb 0 make ≡ ok (scanned kb 0xE0 true make)
unfolding scan scan_E0
scan-E0 kb make t = rw (t, scan) refl

pub pop-seven : (kb kb' : Inbuf) → pop_buf kb ≡ ok kb' → kb'.count ≡ 0 → pop_times 7 kb ≡ ok kb'
unfolding pop_times
pop-seven kb kb' e h = rw (e, pop_times) (pop_times-empty 6 kb' h)

scan_E1-once :
    (s : Scan) (kb' : Inbuf)
    → get_tail s.kb ≡ ok 0xE1
    → pop_times 7 s.kb ≡ ok kb'
    → scan_E1 s ≡ ok (record s { kb = kb'; scan_code = 0xE1 })
unfolding scan_E1 match_pause
scan_E1-once s kb' t e = rw (t, scan_E1) (rw e refl)

pub scan-E1 :
    (kb kb' : Inbuf) (make : Bool)
    → get_tail kb ≡ ok 0xE1
    → pop_times 7 kb ≡ ok kb'
    → scan kb 0 make ≡ ok (scanned kb' 0xE1 false make)
unfolding scan
scan-E1 kb kb' make t e = rw (t, scan) (scan_E1-once (scanned kb 0xE1 false make) kb' t e)

same_branch {ℓ} : {A : Type ℓ} (b : Bool) (x : A) → (if b then x else x) ≡ x
same_branch true x = refl
same_branch false x = refl

pub key_of-E0 : (m : Modifiers) → key_of m 0xE0 true ≡ ok 0
unfolding key_of
key_of-E0 m = refl

pub key_of-E1 : (m : Modifiers) → key_of m 0xE1 false ≡ ok 0
unfolding key_of
key_of-E1 m = ap ok (same_branch _ 0)

pub decode-none :
    (kb : Inbuf) (c : ℕ) (e0 make : Bool) (m : Modifiers) (p : Ports)
    → key_of m c e0 ≡ ok 0
    → is_make c ≡ false
    → decode (scanned kb c e0 make) (m, p) ≡ ok (0, false, (m, p))
unfolding decode switch_key track
decode-none kb c e0 make m p k b = rw (k, decode) (rw (b, switch_key) refl)
