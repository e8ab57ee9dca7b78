-- ===== src/Drivers/Keyboard/Typing.antt =====
-- What `handle_tty` of drivers/i386/keyboard.c does to the first console and its input.
use jnix.Prelude.{
  ℕ, ◌+◌, ◌%◌, ◌≤◌, ◌<◌, ◌≡◌, refl, sym, subst, ap, ◌∙◌, inl, inr, ◌&&◌, ◌||◌, not, true, some,
  List, [], ◌∷◌, arith, ltb, ◌==◌, if◌then◌else◌, Bool-cases, length, get_elem?, set, length-set,
  get_elem?-set_self, lt-length_of_some, get_elem?_of_lt, ok, fault,
}
use jnix.Clib.Strings.{extend}
use jnix.Kernel.Tty.{Console, Display, Direction, scr_up, scr_dn, scroll, scroll_screen}
use jnix.Kernel.Tty.Screen.{IsValid, scroll-IsValid}
use jnix.Kernel.Tty.Table.{
  frame, own, Tty, Screen, clear_screen, tty_create, create_from, init_tty, tty_write,
}
use jnix.Kernel.Tty.Isolation.{tty_write_lem}
use jnix.Drivers.Keys
use jnix.Drivers.Keyboard.{put_key, with_tty, scroll_tty, type_char, handle_tty, char_of, has_flag}

-- The input of a console can be written: `inbuf_head` points into its own buffer of 256 entries.
pub record InputIsValid (tty : Tty) : Type 0 where
  pub position : ℕ
  pub head : tty.inbuf_head ≡ own position
  pub inside : position < 256
  pub sized : length tty.in_buff ≡ 256
  pub counted : tty.inbuf_count ≤ 256

put_key-InputIsValid :
    (key : ℕ) (tty : Tty)
    → InputIsValid tty
    → (tty' : Tty) × (put_key key tty ≡ ok tty') × InputIsValid tty' × (tty'.console ≡ tty.console)
unfolding put_key
put_key-InputIsValid key tty v = elim (Bool-cases (ltb tty.inbuf_count 256)) [
  | inr full ↦ (tty, rw full refl, v, refl)
  | inl free ↦
      let i = v.position in
      let inside = v.inside in
      let sized = v.sized in
      let (old, e) = get_elem?_of_lt tty.in_buff i (omega arith) in
      (
        record tty {
          in_buff = set tty.in_buff i (extend key);
          inbuf_head = own (if i + 1 == 256 then 0 else i + 1);
          inbuf_count = tty.inbuf_count + 1;
        },
        rw free (rw (v.head) (rw e refl)),
        record {
          position = if i + 1 == 256 then 0 else i + 1;
          head = refl;
          inside = ground arith;
          sized = length-set tty.in_buff i (extend key) ∙ sized;
          counted = ground arith;
        },
        refl,
      )
]

-- The first console is valid, and its input can be written.
pub record Ready (s : Screen) : Type 0 where
  pub tty : Tty
  pub here : get_elem? s.tty_table 0 ≡ some tty
  pub console : IsValid tty.console
  pub input : InputIsValid tty

replace-Ready :
    (s : Screen) (old tty : Tty) (d : Display)
    → get_elem? s.tty_table 0 ≡ some old
    → IsValid tty.console
    → InputIsValid tty
    → Ready (record (with_tty s tty) { display = d })
replace-Ready s old tty d e v i = record {
  tty = tty;
  here = get_elem?-set_self s.tty_table 0 tty (lt-length_of_some s.tty_table 0 e);
  console = v;
  input = i;
}

type_char-Ready :
    (key : ℕ) (s : Screen) → Ready s → (s' : Screen) × (type_char key s ≡ ok s') × Ready s'
unfolding type_char
type_char-Ready key s r =
    let (s₁, c, run, v, region, table, apart) =
      tty_write_lem s 0 r.tty (key ∷ []) 1 r.here r.console (omega arith) in
    let tty₁ = record r.tty { console = c } in
    let there : get_elem? s₁.tty_table 0 ≡ some tty₁ =
      ap (λ l. get_elem? l 0) table
      ∙ get_elem?-set_self s.tty_table 0 tty₁ (lt-length_of_some s.tty_table 0 r.here) in
    let i = r.input in
    let (tty₂, put, i₂, same) = put_key-InputIsValid key tty₁ (record {
      position = i.position;
      head = i.head;
      inside = i.inside;
      sized = i.sized;
      counted = i.counted;
    }) in
    (
      with_tty s₁ tty₂,
      rw run (rw there (rw put refl)),
      replace-Ready s₁ tty₁ tty₂ s₁.display there (subst IsValid (sym same) v) i₂,
    )

same_input :
    (tty : Tty) (c : Console) → InputIsValid tty → InputIsValid (record tty { console = c })
same_input tty c i = record {
  position = i.position;
  head = i.head;
  inside = i.inside;
  sized = i.sized;
  counted = i.counted;
}

clear-IsValid :
    (tty : Tty) (d : Display) → IsValid tty.console → IsValid (clear_screen tty d).0.console
unfolding clear_screen
clear-IsValid tty d v = ground arith

clear-InputIsValid :
    (tty : Tty) (d : Display) → InputIsValid tty → InputIsValid (clear_screen tty d).0
unfolding clear_screen
clear-InputIsValid tty d i = same_input tty (clear_screen tty d).0.console i

scroll-Ready : (dir : Direction) (s : Screen) (r : Ready s) → Ready (scroll_tty dir r.tty s)
unfolding scroll_screen
scroll-Ready dir s r =
    replace-Ready s r.tty (record r.tty { console = scroll dir r.tty.console })
      (record s.display { crtc = (scroll_screen dir (r.tty.console, s.display.crtc)).1 }) r.here
      (scroll-IsValid dir r.tty.console r.console)
      (same_input r.tty (scroll dir r.tty.console) r.input)

-- With the first console valid and its input writable, `handle_tty` ends on every key, and leaves
-- the console valid and its input writable.
pub handle_tty_lem :
    (content : ℕ) (s : Screen) → Ready s → (s' : Screen) × (handle_tty content s ≡ ok s') × Ready s'
unfolding handle_tty
handle_tty_lem content s r =
    elim (Bool-cases (has_flag content Keys.flag_ctrl_l && (content % 256 == b'l'))) [
      | inl clear ↦
          let t = clear_screen r.tty s.display in
          (
            record (with_tty s t.0) { display = t.1 },
            rw (r.here) (rw clear refl),
            replace-Ready s r.tty t.0 t.1 r.here (clear-IsValid r.tty s.display r.console)
                (clear-InputIsValid r.tty s.display r.input),
          )
      | inr keep ↦ elim (Bool-cases (content == Keys.pagedown)) [
        | inl down ↦ (
          scroll_tty scr_dn r.tty s,
          rw (r.here) (rw keep (rw down refl)),
          scroll-Ready scr_dn s r,
        )
        | inr not_down ↦ elim (Bool-cases (content == Keys.pageup)) [
          | inl up ↦ (
            scroll_tty scr_up r.tty s,
            rw (r.here) (rw keep (rw not_down (rw up refl))),
            scroll-Ready scr_up s r,
          )
          | inr not_up ↦
              elim (Bool-cases (
                not (has_flag content Keys.flag_ext)
                || (content == Keys.enter_key)
                || (content == Keys.backspace))) [
                  | inl char ↦
                      let (s', run, r') = type_char-Ready (char_of content) s r in
                      (s', rw (r.here) (rw keep (rw not_down (rw not_up (rw char run)))), r')
                  | inr other ↦
                      (s, rw (r.here) (rw keep (rw not_down (rw not_up (rw other refl)))), r)
                ]
        ]
      ]
    ]

-- Where `inbuf_head` points into the frame of `tty_create`, as `init_tty` leaves it, typing any
-- character on a valid console writes through a pointer to nothing.
type_char-frame :
    (key : ℕ) (s : Screen) (tty : Tty) (i : ℕ)
    → get_elem? s.tty_table 0 ≡ some tty
    → IsValid tty.console
    → tty.inbuf_head ≡ frame i
    → tty.inbuf_count < 256
    → type_char key s ≡ fault
unfolding type_char put_key
type_char-frame key s tty i here v dangling free =
    let (s₁, c, run, valid, region, table, apart) =
      tty_write_lem s 0 tty (key ∷ []) 1 here v (omega arith) in
    let there : get_elem? s₁.tty_table 0 ≡ some (record tty { console = c }) =
      ap (λ l. get_elem? l 0) table
      ∙ get_elem?-set_self s.tty_table 0 (record tty { console = c })
          (lt-length_of_some s.tty_table 0 here) in
    let free' : ltb tty.inbuf_count 256 ≡ true = ground arith in
    rw run (rw there (rw free' (rw dangling refl)))

first-IsValid : (buff : List ℕ) → IsValid (tty_create 0 buff).console
unfolding tty_create
first-IsValid buff = omega arith

first-dangles : (buff : List ℕ) → (tty_create 0 buff).inbuf_head ≡ frame 0
unfolding tty_create
first-dangles buff = refl

first-empty : (buff : List ℕ) → (tty_create 0 buff).inbuf_count < 256
unfolding tty_create
first-empty buff = omega arith

init_tty-first :
    (buff : List ℕ) (d : Display)
    → get_elem? (init_tty buff d).tty_table 0 ≡ some (tty_create 0 buff)
unfolding init_tty create_from
init_tty-first buff d = refl

-- On the consoles that `init_tty` makes any text can be written to the first one; but then typing any
-- character writes through a pointer to nothing, whatever was in the buffer of its input.
pub type_char-init_tty :
    (key : ℕ) (buff text : List ℕ) (d : Display)
    → (s : Screen) × (tty_write 0 text (length text) (init_tty buff d) ≡ ok (length text, s))
      × (type_char key s ≡ fault)
type_char-init_tty key buff text d =
    let tty = tty_create 0 buff in
    let made = init_tty buff d in
    let (s, c, run, valid, region, table, apart) =
      tty_write_lem made 0 tty text (length text) (init_tty-first buff d) (first-IsValid buff)
        (omega arith) in
    let there : get_elem? s.tty_table 0 ≡ some (record tty { console = c }) =
      ap (λ l. get_elem? l 0) table
      ∙ get_elem?-set_self made.tty_table 0 (record tty { console = c })
          (lt-length_of_some made.tty_table 0 (init_tty-first buff d)) in
    (
      s,
      run,
      type_char-frame key s (record tty { console = c }) 0 there valid (first-dangles buff)
          (first-empty buff),
    )
