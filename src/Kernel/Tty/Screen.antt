-- ===== src/Kernel/Tty/Screen.antt =====
-- One console: `console_out_char` ends, keeps the console within its part of video memory, writes
-- nowhere else, and leaves the controller showing the cursor.
use jnix.Prelude.{
  ℕ, zero, suc, ◌+◌, ◌-◌, ◌*◌, ◌/◌, ◌%◌, ◌^◌, ◌≤◌, ◌<◌, ◌≡◌, refl, ◌∙◌, ◌⊎◌, inl, inr, arith, leb,
  Bool-cases, ok, add32,
}
use jnix.Kernel.Tty.{
  Console, Crtc, Display, Direction, scr_up, scr_dn, screen_size, screen_width, v_mem_size, flush,
  scroll, scroll_screen, follow, put_char, console_out_char,
}

-- The console lies in video memory, and its window starts at one of its rows; the last row of the window may
-- reach past the end of the console by less than a row.
pub record IsValid (c : Console) : Type 0 where
  pub inside : c.original_addr + c.v_mem_limit ≤ v_mem_size / 2
  pub room : screen_size ≤ c.v_mem_limit
  pub window : c.original_addr ≤ c.current_start_addr
  pub rows : (c.current_start_addr - c.original_addr) % screen_width ≡ 0
  pub window_end :
      c.current_start_addr + screen_size < c.original_addr + c.v_mem_limit + screen_width
  pub cursor_low : c.original_addr ≤ c.cursor
  pub cursor_high : c.cursor < c.original_addr + c.v_mem_limit

abbrev pub SameRegion : Console → Console → Type 0
SameRegion c c' = (c'.original_addr ≡ c.original_addr) × (c'.v_mem_limit ≡ c.v_mem_limit)

pub scroll-IsValid : (dir : Direction) (c : Console) → IsValid c → IsValid (scroll dir c)
unfolding scroll
scroll-IsValid scr_up c v = ground arith
scroll-IsValid scr_dn c v = ground arith

scroll-SameRegion :
    (dir : Direction) (c : Console)
    → SameRegion c (scroll dir c) × ((scroll dir c).cursor ≡ c.cursor)
unfolding scroll
scroll-SameRegion scr_up c = ground arith
scroll-SameRegion scr_dn c = ground arith

pub put_char-IsValid :
    (ch : ℕ) (c : Console) (vmem : ℕ → ℕ) → IsValid c → IsValid (put_char ch (c, vmem)).0
unfolding put_char
put_char-IsValid ch c vmem v = ground arith

put_char-SameRegion : (ch : ℕ) (c : Console) (vmem : ℕ → ℕ) → SameRegion c (put_char ch (c, vmem)).0
unfolding put_char
put_char-SameRegion ch c vmem = ground arith

-- A byte of video memory that belongs to another console.
abbrev pub OutsideOf : Console → ℕ → Type 0
OutsideOf c a = (a < 2 * c.original_addr) ⊎ (2 * (c.original_addr + c.v_mem_limit) ≤ a)

put_char-outside :
    (ch : ℕ) (c : Console) (vmem : ℕ → ℕ) (a : ℕ)
    → IsValid c
    → OutsideOf c a
    → (put_char ch (c, vmem)).1 a ≡ vmem a
unfolding put_char
put_char-outside ch c vmem a v out = ground arith

-- What a run of the scrolling loop leaves: the cursor is at most in the last row of the window.
pub record Follows (c c' : Console) : Type 0 where
  pub valid : IsValid c'
  pub region : SameRegion c c'
  pub cursor : c'.cursor ≡ c.cursor
  pub shown : c'.cursor < c'.current_start_addr + screen_size

scroll_down :
    (c : Console)
    → IsValid c
    → c.current_start_addr + screen_size ≤ c.cursor
    → (scroll scr_dn c).current_start_addr ≡ c.current_start_addr + screen_width
unfolding scroll
scroll_down c v past = ground arith

-- The loop ends: every round moves the window down by a row, and the cursor lies in the console.
follow_lem :
    (fuel : ℕ) (c : Console) (crtc : Crtc)
    → IsValid c
    → 0 < fuel
    → c.cursor < fuel + c.current_start_addr
    → (c' : Console) × (crtc' : Crtc) × (follow fuel (c, crtc) ≡ ok (c', crtc')) × Follows c c'
unfolding follow
follow_lem zero c crtc v some_fuel enough = absurd (omega arith)
follow_lem (suc fuel) c crtc v some_fuel enough =
    elim (Bool-cases (leb (add32 c.current_start_addr screen_size) c.cursor)) [
      | inr done ↦ (
        c,
        crtc,
        rw (done, follow) refl,
        record { valid = v; region = (refl, refl); cursor = refl; shown = ground arith },
      )
      | inl past ↦
          let low : c.current_start_addr + screen_size ≤ c.cursor = ground arith in
          let moved = scroll_down c v low in
          let same = scroll-SameRegion scr_dn c in
          let (c', crtc', run, f) =
            follow_lem fuel (scroll scr_dn c) (scroll_screen scr_dn (c, crtc)).1
              (scroll-IsValid scr_dn c v) (omega arith) (omega arith) in
          (
            c',
            crtc',
            rw (past, follow) run,
            record {
              valid = f.valid;
              region = (f.region.0 ∙ same.0.0, f.region.1 ∙ same.0.1);
              cursor = f.cursor ∙ same.1;
              shown = f.shown;
            },
          )
    ]

-- What the controller's registers say.
abbrev pub shown_cursor : Crtc → ℕ
shown_cursor c = c.regs 0xE * 256 + c.regs 0xF

abbrev pub shown_start : Crtc → ℕ
shown_start c = c.regs 0xC * 256 + c.regs 0xD

flush-shows :
    (c : Console) (crtc : Crtc)
    → c.cursor < 2 ^ 16
    → c.current_start_addr < 2 ^ 16
    → (shown_cursor (flush c crtc) ≡ c.cursor) × (shown_start (flush c crtc) ≡ c.current_start_addr)
unfolding flush
flush-shows c crtc h g = (omega arith, omega arith)

-- One character on a valid console. The loop ends; the console stays valid and keeps its part of
-- video memory; every byte outside it is untouched; the cursor is before the end of the window,
-- and the controller shows cursor and window.
pub record Printed (c : Console) (d : Display) (c' : Console) (d' : Display) : Type 0 where
  pub valid : IsValid c'
  pub region : SameRegion c c'
  pub shown : c'.cursor < c'.current_start_addr + screen_size
  pub outside : (a : ℕ) → OutsideOf c a → d'.vmem a ≡ d.vmem a
  pub cursor_register : shown_cursor d'.crtc ≡ c'.cursor
  pub start_register : shown_start d'.crtc ≡ c'.current_start_addr

-- Printing any character on a valid console ends. The console stays valid and keeps its region, the
-- cursor stays before the end of its window, no byte outside the region changes, and the
-- controller holds the cursor and the start of the window.
pub console_out_char_lem :
    (ch : ℕ) (c : Console) (d : Display)
    → IsValid c
    → (c' : Console) × (d' : Display) × (console_out_char ch (c, d) ≡ ok (c', d'))
      × Printed c d c' d'
unfolding console_out_char
console_out_char_lem ch c d v =
    let s = put_char ch (c, d.vmem) in
    let v₁ = put_char-IsValid ch c d.vmem v in
    let same = put_char-SameRegion ch c d.vmem in
    let (c', crtc, run, f) =
      follow_lem (suc (s.0).cursor) s.0 d.crtc v₁ (omega arith) (omega arith) in
    let v₂ = f.valid in
    let seen = flush-shows c' crtc (omega arith) (omega arith) in
    (
      c',
      record { vmem = s.1; crtc = flush c' crtc },
      rw run refl,
      record {
        valid = v₂;
        region = (f.region.0 ∙ same.0, f.region.1 ∙ same.1);
        shown = f.shown;
        outside = λ a out. put_char-outside ch c d.vmem a v out;
        cursor_register = seen.0;
        start_register = seen.1;
      },
    )
