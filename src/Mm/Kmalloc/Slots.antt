-- ===== src/Mm/Kmalloc/Slots.antt =====
-- Arithmetic of the objects that a page is carved into: how often an address is in a free list,
-- and how many objects of a page are live.
use jnix.Prelude.{
  ℕ, zero, suc, ◌+◌, ◌*◌, ◌≤◌, ◌<◌, ◌≡◌, ◌≢◌, refl, ◌∙◌, ◌⊎◌, inl, inr, Bool, true, false, List, [],
  ◌∷◌, arith, ◌==◌, if◌then◌else◌, Bool-cases,
}
use jnix.Mm.Kmalloc.{store, carve}

-- The objects that are handed out, by address.
abbrev pub Live : Type 0
Live = ℕ → Bool

abbrev pub to_nat : Bool → ℕ
to_nat true = 1
to_nat false = 0

abbrev pub set_live : Live → ℕ → Bool → Live
set_live live x b a = if a == x then b else live a

abbrev pub occurs : ℕ → List ℕ → ℕ
occurs a [] = 0
occurs a (x ∷ xs) = to_nat (a == x) + occurs a xs

-- `xs` are the nodes of the free list that starts at `p`.
abbrev pub Chain : (ℕ → ℕ) → ℕ → List ℕ → Type 0
Chain mem p [] = p ≡ 0
Chain mem p (x ∷ xs) = (p ≡ x) × Chain mem (mem x) xs

pub Chain-store :
    (mem : ℕ → ℕ) (x v p : ℕ) (xs : List ℕ)
    → occurs x xs ≡ 0
    → Chain mem p xs
    → Chain (store mem x v) p xs
Chain-store mem x v p [] out c = c
Chain-store mem x v p (y ∷ ys) out (e, c) =
    let away : store mem x v y ≡ mem y = ground arith in
    (e, rw away (Chain-store mem x v (mem y) ys (omega arith) c))

pub slot_inj : (size i j : ℕ) → 0 < size → i * size ≡ j * size → i ≡ j
slot_inj size i j pos e = grind arith

-- How many of the first `n` objects from `page` on are live.
abbrev pub live_below : Live → ℕ → ℕ → ℕ → ℕ
live_below live page size zero = 0
live_below live page size (suc n) = to_nat (live (page + n * size)) + live_below live page size n

module _ (page size : ℕ) where
  pub live_below-le : (live : Live) (n : ℕ) → live_below live page size n ≤ n
  live_below-le live zero = omega arith
  live_below-le live (suc n) = ground (arith, live_below-le live n)

  pub live_below_congr :
      (live live' : Live) (n : ℕ)
      → ((i : ℕ) → i < n → live' (page + i * size) ≡ live (page + i * size))
      → live_below live' page size n ≡ live_below live page size n
  live_below_congr live live' zero same = refl
  live_below_congr live live' (suc n) same =
      ground
        (arith, same n (omega arith), live_below_congr live live' n (λ i h. same i (omega arith)))

  pub live_of_below-zero :
      (live : Live) (n i : ℕ)
      → i < n
      → live_below live page size n ≡ 0
      → live (page + i * size) ≡ false
  live_of_below-zero live zero i h e = absurd (omega arith)
  live_of_below-zero live (suc n) i h e = elim (Bool-cases (i == n)) [
    | inl last ↦ let same : i ≡ n = ground arith in rw same (ground arith)
    | inr before ↦ live_of_below-zero live n i (ground arith) (ground arith)
  ]

  module _ (pos : 0 < size) (live : Live) (i : ℕ) (b : Bool) where
    elsewhere :
        (j : ℕ)
        → j ≢ i
        → set_live live (page + i * size) b (page + j * size) ≡ live (page + j * size)
    elsewhere j ne =
        let apart : page + j * size ≢ page + i * size =
          λ e. ne (slot_inj size j i pos (omega arith)) in
        ground arith

    -- Flipping one object changes the count by one.
    pub live_below-set_live :
        (n : ℕ)
        → i < n
        → live_below (set_live live (page + i * size) b) page size n
            + to_nat (live (page + i * size))
          ≡ live_below live page size n + to_nat b
    live_below-set_live zero h = absurd (omega arith)
    live_below-set_live (suc n) h = elim (Bool-cases (i == n)) [
      | inl last ↦
          let same : i ≡ n = ground arith in
          let rest =
            live_below_congr live (set_live live (page + i * size) b) n
              (λ j lt. elsewhere j (omega arith)) in
          let here : set_live live (page + i * size) b (page + n * size) ≡ b =
            rw same (ground arith) in
          rw (here, rest, same) (omega arith)
      | inr before ↦
          let lt : i < n = ground arith in
          rw (elsewhere n (omega arith)) (omega (arith, live_below-set_live n lt))
    ]

-- The objects from `p` on, in order.
abbrev pub slots_from : ℕ → ℕ → ℕ → List ℕ
slots_from zero size p = []
slots_from (suc n) size p = p ∷ slots_from n size (p + size)

module _ (size : ℕ) (pos : 0 < size) where
  pub occurs-slots_from-below : (n p a : ℕ) → a < p → occurs a (slots_from n size p) ≡ 0
  occurs-slots_from-below zero p a h = refl
  occurs-slots_from-below (suc n) p a h =
      ground (arith, occurs-slots_from-below n (p + size) a (omega arith))

  pub occurs-slots_from :
      (n p i a : ℕ) → i < n → a ≡ p + i * size → occurs a (slots_from n size p) ≡ 1
  occurs-slots_from zero p i a h e = absurd (omega arith)
  occurs-slots_from (suc n) p zero a h e =
      ground (arith, occurs-slots_from-below n (p + size) a (omega arith))
  occurs-slots_from (suc n) p (suc i) a h e =
      ground (arith, occurs-slots_from n (p + size) i a (omega arith) (omega arith))

pub slot_of_occurs :
    (size n p x : ℕ) → 0 < occurs x (slots_from n size p) → (i : ℕ) × (i < n) × (x ≡ p + i * size)
slot_of_occurs size zero p x h = absurd (omega arith)
slot_of_occurs size (suc n) p x h = elim (Bool-cases (x == p)) [
  | inl same ↦ (0, omega arith, ground arith)
  | inr other ↦
      let (i, lt, e) = slot_of_occurs size n (p + size) x (ground arith) in
      (suc i, omega arith, omega arith)
]

pub live_below-zero_of :
    (page size : ℕ) (live : Live) (n : ℕ)
    → ((i : ℕ) → i < n → live (page + i * size) ≡ false)
    → live_below live page size n ≡ 0
live_below-zero_of page size live zero dead = refl
live_below-zero_of page size live (suc n) dead =
    rw (dead n (omega arith))
      (omega (arith, live_below-zero_of page size live n (λ i lt. dead i (omega arith))))

module _ (size : ℕ) (pos : 0 < size) where
  -- Carving writes nothing outside the objects.
  pub carve-outside :
      (n cp : ℕ) (mem : ℕ → ℕ) (a : ℕ)
      → 0 < n
      → (a < cp) ⊎ (cp + n * size ≤ a)
      → carve n size cp mem a ≡ mem a
  unfolding carve
  carve-outside zero cp mem a h out = absurd (omega arith)
  carve-outside (suc zero) cp mem a h out = ground arith
  carve-outside (suc (suc n)) cp mem a h out =
      let here : store mem cp (cp + size) a ≡ mem a = ground (arith) in
      carve-outside (suc n) (cp + size) (store mem cp (cp + size)) a (omega arith) (omega arith)
      ∙ here

  -- It links all objects of the page, in order.
  pub Chain-carve :
      (n cp : ℕ) (mem : ℕ → ℕ) → 0 < n → Chain (carve n size cp mem) cp (slots_from n size cp)
  unfolding carve
  Chain-carve zero cp mem h = absurd (omega arith)
  Chain-carve (suc zero) cp mem h = (refl, ground arith)
  Chain-carve (suc (suc n)) cp mem h =
      let next =
        carve-outside (suc n) (cp + size) (store mem cp (cp + size)) cp (omega arith)
          (inl (omega arith)) in
      let first : store mem cp (cp + size) cp ≡ cp + size = ground arith in
      (
        refl,
        rw (next, first) (Chain-carve (suc n) (cp + size) (store mem cp (cp + size)) (omega arith)),
      )
