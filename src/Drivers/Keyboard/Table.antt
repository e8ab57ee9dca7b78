-- ===== src/Drivers/Keyboard/Table.antt =====
-- What `key_of` finds in the table of drivers/i386/keyboard.c.
use jnix.Prelude.{
  ℕ, zero, suc, ◌%◌, ◌≡◌, refl, subst, ◌&&◌, not, Bool, true, false, some, List, [], ◌∷◌, arith,
  ltb, ◌==◌, if◌then◌else◌, get_elem?, get_elem?_of_lt, ok,
}
use mathlib.Core.Option.{some-injective, none-ne-some}
use jnix.Drivers.Keys
use jnix.Drivers.Keymap.{keymap}
use jnix.Drivers.Keyboard.{Modifiers, key_of, caps_of, column_of}

-- Below the flags, and none of the two keys that take more than one scan code.
abbrev pub is_plain : ℕ → Bool
is_plain key = ltb key 0x200 && not (key == Keys.pausebreak) && not (key == Keys.printscreen)

all_plain : List (ℕ × ℕ × ℕ) → Bool
all_plain [] = true
all_plain (r ∷ rs) = is_plain r.0 && is_plain r.1 && is_plain r.2 && all_plain rs

all_plain-head :
    (r : ℕ × ℕ × ℕ) (rs : List (ℕ × ℕ × ℕ))
    → all_plain (r ∷ rs) ≡ true
    → (is_plain r.0 ≡ true) × (is_plain r.1 ≡ true) × (is_plain r.2 ≡ true)
unfolding all_plain
all_plain-head r rs h = ground arith

all_plain-tail :
    (r : ℕ × ℕ × ℕ) (rs : List (ℕ × ℕ × ℕ)) → all_plain (r ∷ rs) ≡ true → all_plain rs ≡ true
unfolding all_plain
all_plain-tail r rs h = ground arith

all_plain-get_elem? :
    (rs : List (ℕ × ℕ × ℕ)) (i : ℕ) (r : ℕ × ℕ × ℕ)
    → all_plain rs ≡ true
    → get_elem? rs i ≡ some r
    → (is_plain r.0 ≡ true) × (is_plain r.1 ≡ true) × (is_plain r.2 ≡ true)
unfolding all_plain
all_plain-get_elem? [] i r h e = absurd (none-ne-some r e)
all_plain-get_elem? (row ∷ rows) zero r h e =
    subst (λ (x : ℕ × ℕ × ℕ). (is_plain x.0 ≡ true) × (is_plain x.1 ≡ true) × (is_plain x.2 ≡ true))
      (some-injective row r e) (all_plain-head row rows h)
all_plain-get_elem? (row ∷ rows) (suc i) r h e =
    all_plain-get_elem? rows i r (all_plain-tail row rows h) e

keymap-all_plain : all_plain keymap ≡ true
unfolding all_plain
keymap-all_plain = refl

choice-is_plain :
    (b : Bool) (x y : ℕ)
    → is_plain x ≡ true
    → is_plain y ≡ true
    → is_plain (if b then x else y) ≡ true
choice-is_plain true x y hx hy = hx
choice-is_plain false x y hx hy = hy

column_of-is_plain :
    (m : Modifiers) (row : ℕ × ℕ × ℕ) (e0 : Bool)
    → is_plain row.0 ≡ true
    → is_plain row.1 ≡ true
    → is_plain row.2 ≡ true
    → is_plain (column_of m row e0) ≡ true
column_of-is_plain m row e0 h₀ h₁ h₂ =
    choice-is_plain e0 row.2 (if caps_of m row then row.1 else row.0) h₂
      (choice-is_plain (caps_of m row) row.1 row.0 h₁ h₀)

-- Every scan code has a key, with any modifiers and behind a prefix too; the key leaves the bits of
-- the flags clear, and is neither Pause nor PrintScreen.
pub key_of_lem :
    (m : Modifiers) (scan_code : ℕ) (e0 : Bool)
    → (key : ℕ) × (key_of m scan_code e0 ≡ ok key) × (is_plain key ≡ true)
unfolding key_of
key_of_lem m scan_code e0 =
    let (row, e) = get_elem?_of_lt keymap (scan_code % 0x80) (omega arith) in
    let (h₀, h₁, h₂) = all_plain-get_elem? keymap (scan_code % 0x80) row keymap-all_plain e in
    (column_of m row e0, rw e refl, column_of-is_plain m row e0 h₀ h₁ h₂)
