-- ===== src/Kernel/Tty/Isolation.antt =====
-- What the consoles promise one another: writing to one always ends, and leaves the cells of every
-- other as they are.
use jnix.Prelude.{
  ℕ, zero, suc, ◌+◌, ◌-◌, ◌*◌, ◌/◌, ◌≤◌, ◌<◌, ◌≡◌, ◌≢◌, refl, sym, subst, ◌∙◌, ◌⊎◌, inl, inr, some,
  List, [], ◌∷◌, arith, length, get_elem?, set, Bool-cases, ltb, ◌==◌, ok,
}
use jnix.Kernel.Tty.{Console, Display, default_char_color, poke}
use jnix.Kernel.Tty.Screen.{IsValid, SameRegion, OutsideOf, console_out_char_lem}
use jnix.Kernel.Tty.Table.{
  Tty, Screen, tty_create, init_tty, write_chars, tty_write, blank_cells, clear_screen,
}

-- What a run of characters leaves of a console and the display.
pub record Written (c : Console) (d : Display) (c' : Console) (d' : Display) : Type 0 where
  pub valid : IsValid c'
  pub region : SameRegion c c'
  pub outside : (a : ℕ) → OutsideOf c a → d'.vmem a ≡ d.vmem a

write_chars_lem :
    (buf : List ℕ) (len : ℕ) (c : Console) (d : Display)
    → IsValid c
    → len ≤ length buf
    → (c' : Console) × (d' : Display) × (write_chars buf len (c, d) ≡ ok (c', d'))
      × Written c d c' d'
unfolding write_chars
write_chars_lem buf zero c d v le =
    (c, d, refl, record { valid = v; region = (refl, refl); outside = λ a out. refl })
write_chars_lem [] (suc n) c d v le = absurd (omega arith)
write_chars_lem (ch ∷ buf) (suc n) c d v le =
    let (c₁, d₁, run₁, p) = console_out_char_lem ch c d v in
    let (c₂, d₂, run₂, w) = write_chars_lem buf n c₁ d₁ p.valid (omega arith) in
    let same = p.region in
    (
      c₂,
      d₂,
      rw run₁ run₂,
      record {
        valid = w.valid;
        region = (w.region.0 ∙ same.0, w.region.1 ∙ same.1);
        outside = λ a out. w.outside a (omega arith) ∙ p.outside a out;
      },
    )

-- Two consoles whose parts of video memory do not overlap.
abbrev pub Apart : Console → Console → Type 0
Apart c e =
    (c.original_addr + c.v_mem_limit ≤ e.original_addr)
    ⊎ (e.original_addr + e.v_mem_limit ≤ c.original_addr)

-- The byte `a` belongs to the console.
abbrev pub BelongsTo : Console → ℕ → Type 0
BelongsTo e a = (2 * e.original_addr ≤ a) × (a < 2 * (e.original_addr + e.v_mem_limit))

-- Writing `len` characters of a buffer that has them returns `len`, keeps the console valid, and
-- changes neither the other entries of the table nor the cells of a console that lies apart.
pub tty_write_lem :
    (s : Screen) (k : ℕ) (tty : Tty) (buf : List ℕ) (len : ℕ)
    → get_elem? s.tty_table k ≡ some tty
    → IsValid tty.console
    → len ≤ length buf
    → (s' : Screen) × (c : Console) × (tty_write k buf len s ≡ ok (len, s'))
      × IsValid c
      × SameRegion tty.console c
      × (s'.tty_table ≡ set s.tty_table k (record tty { console = c }))
      × ((e : Console) (a : ℕ)
          → Apart tty.console e
          → BelongsTo e a
          → s'.display.vmem a ≡ s.display.vmem a)
unfolding tty_write
tty_write_lem s k tty buf len at v le =
    let (c, d, run, w) = write_chars_lem buf len tty.console s.display v le in
    (
      record s { tty_table = set s.tty_table k (record tty { console = c }); display = d },
      c,
      rw at (rw run refl),
      w.valid,
      w.region,
      refl,
      λ e a apart mine. w.outside a (omega arith),
    )

init_tty-created :
    (buff : List ℕ) (d : Display) (k : ℕ)
    → k < 3
    → get_elem? (init_tty buff d).tty_table k ≡ some (tty_create k buff)
unfolding init_tty
init_tty-created buff d zero lt = refl
init_tty-created buff d (suc zero) lt = refl
init_tty-created buff d (suc (suc zero)) lt = refl
init_tty-created buff d (suc (suc (suc k))) lt = absurd (omega arith)

init_tty-only :
    (buff : List ℕ) (d : Display) (k : ℕ) {tty : Tty}
    → get_elem? (init_tty buff d).tty_table k ≡ some tty
    → tty ≡ tty_create k buff
unfolding init_tty
init_tty-only buff d zero e = cc
init_tty-only buff d (suc zero) e = cc
init_tty-only buff d (suc (suc zero)) e = cc
init_tty-only buff d (suc (suc (suc k))) e = absurd (ground arith)

created-IsValid : (k : ℕ) (buff : List ℕ) → k < 3 → IsValid (tty_create k buff).console
unfolding tty_create
created-IsValid k buff lt = omega arith

created-Apart :
    (k k' : ℕ) (buff : List ℕ)
    → k' ≢ k
    → Apart (tty_create k buff).console (tty_create k' buff).console
unfolding tty_create
created-Apart k k' buff ne = omega arith

-- After `init_tty` there are three valid consoles, any two of them apart.
pub init_tty_lem :
    (buff : List ℕ) (d : Display) (k : ℕ)
    → k < 3
    → (tty : Tty) × (get_elem? (init_tty buff d).tty_table k ≡ some tty)
      × IsValid tty.console
      × ((k' : ℕ) (tty' : Tty)
          → k' ≢ k
          → get_elem? (init_tty buff d).tty_table k' ≡ some tty'
          → Apart tty.console tty'.console)
init_tty_lem buff d k lt = (
  tty_create k buff,
  init_tty-created buff d k lt,
  created-IsValid k buff lt,
  λ k' tty' ne e.
      subst (λ (t : Tty). Apart (tty_create k buff).console t.console)
        (sym (init_tty-only buff d k' e)) (created-Apart k k' buff ne),
)

cell_blanked :
    (n i : ℕ) (vmem : ℕ → ℕ) (a : ℕ)
    → (a < 2 * i) ⊎ (2 * (i + n) ≤ a)
    → blank_cells n i vmem a ≡ vmem a
unfolding blank_cells
cell_blanked zero i vmem a out = refl
cell_blanked (suc n) i vmem a out =
    let later =
      cell_blanked n (i + 1) (poke (poke vmem (i * 2) 0) (i * 2 + 1) default_char_color) a in
    ground (arith, later)

cell_blanked_none : (n i : ℕ) (vmem : ℕ → ℕ) (a : ℕ) → n ≡ 0 → blank_cells n i vmem a ≡ vmem a
unfolding blank_cells
cell_blanked_none zero i vmem a e = refl
cell_blanked_none (suc n) i vmem a e = absurd (omega arith)

blank_cells-blank :
    (n i : ℕ) (vmem : ℕ → ℕ) (j : ℕ)
    → i ≤ j
    → j < i + n
    → (blank_cells n i vmem (2 * j) ≡ 0) × (blank_cells n i vmem (2 * j + 1) ≡ default_char_color)
unfolding blank_cells
blank_cells-blank zero i vmem j lo hi = absurd (omega arith)
blank_cells-blank (suc n) i vmem j lo hi =
    let vmem' = poke (poke vmem (i * 2) 0) (i * 2 + 1) default_char_color in
    elim (Bool-cases (i == j)) [
      | inr later ↦ blank_cells-blank n (i + 1) vmem' j (ground arith) (ground arith)
      | inl here ↦
          let e : i ≡ j = ground arith in
          let low = cell_blanked n (i + 1) vmem' (2 * j) (inl (omega arith)) in
          let high = cell_blanked n (i + 1) vmem' (2 * j + 1) (inl (omega arith)) in
          let l : vmem' (2 * j) ≡ 0 = ground arith in
          let h : vmem' (2 * j + 1) ≡ default_char_color = ground arith in (low ∙ l, high ∙ h)
    ]

-- `clear_screen` blanks exactly the cells from the start of the console up to `v_mem_limit / 2`, an
-- address and not a length, and takes cursor and window back to the start. A console that starts
-- at or beyond that address is not cleared at all.
pub clear_screen_lem :
    (tty : Tty) (d : Display)
    → ((j : ℕ)
        → tty.console.original_addr ≤ j
        → j < tty.console.v_mem_limit / 2
        → ((clear_screen tty d).1.vmem (2 * j) ≡ 0)
          × ((clear_screen tty d).1.vmem (2 * j + 1) ≡ default_char_color))
      × ((a : ℕ)
          → (a < 2 * tty.console.original_addr) ⊎ (2 * (tty.console.v_mem_limit / 2) ≤ a)
          → (clear_screen tty d).1.vmem a ≡ d.vmem a)
      × ((clear_screen tty d).0.console.cursor ≡ tty.console.original_addr)
      × ((clear_screen tty d).0.console.current_start_addr ≡ tty.console.original_addr)
unfolding clear_screen
clear_screen_lem tty d =
    let o = tty.console.original_addr in
    let n = tty.console.v_mem_limit / 2 - o in
    (
      λ j lo hi. blank_cells-blank n o d.vmem j lo (omega arith),
      λ a out. elim (Bool-cases (ltb a (2 * o))) [
        | inl below ↦ cell_blanked n o d.vmem a (inl (ground arith))
        | inr above ↦ elim (Bool-cases (n == 0)) [
          | inl none_left ↦ cell_blanked_none n o d.vmem a (ground arith)
          | inr some_left ↦ cell_blanked n o d.vmem a (inr (ground arith))
        ]
      ],
      refl,
      refl,
    )
