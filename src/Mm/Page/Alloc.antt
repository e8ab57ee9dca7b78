-- ===== src/Mm/Page/Alloc.antt =====
-- What a caller of mm/page.c may rely on.
use jnix.Prelude.{
  ℕ, zero, suc, ◌+◌, ◌*◌, ◌/◌, ◌%◌, ◌≤◌, ◌<◌, ◌≡◌, ◌≢◌, refl, sym, ap, ◌∙◌, ◌⊎◌, inl, inr, true,
  false, none, some, List, [], ◌∷◌, arith, length, get_elem?, set, length-set, get_elem?-set_self,
  get_elem?-set_ne, get_elem?_of_lt, lt-length_of_some, Option-cases, Bool-cases, ok, panicked,
  u32_mod,
}
use jnix.Mm.Page.{
  Page, Ram, page_size, va, in_use, claim, release, clear_page, first_free, get_free_page,
  free_page,
}

-- Every page below `i` is in use.
abbrev pub UsedBelow : List Page → ℕ → Type 0
UsedBelow ps i = (j : ℕ) (p : Page) → j < i → get_elem? ps j ≡ some p → in_use p ≡ true

UsedBelow-suc :
    (p : Page) (ps : List Page) (i : ℕ)
    → in_use p ≡ true
    → UsedBelow ps i
    → UsedBelow (p ∷ ps) (suc i)
UsedBelow-suc p ps i u h zero q lt e = ground arith
UsedBelow-suc p ps i u h (suc j) q lt e = h j q (omega arith) e

abbrev FreeAt : List Page → ℕ → Type 0
FreeAt ps i = (p : Page) × (get_elem? ps i ≡ some p) × (in_use p ≡ false)

FreeAt-zero : (p : Page) (ps : List Page) (i : ℕ) → in_use p ≡ false → i ≡ 0 → FreeAt (p ∷ ps) i
FreeAt-zero p ps i f e = rw e (p, refl, f)

first_free-some : (ps : List Page) {i : ℕ} → first_free ps ≡ some i → FreeAt ps i × UsedBelow ps i
unfolding first_free
first_free-some [] h = absurd (ground arith)
first_free-some (p ∷ ps) {i} h = elim (Bool-cases (in_use p)) [
  | inl u ↦ elim (Option-cases (first_free ps)) [
    | inl e ↦ absurd (ground arith)
    | inr (k, e) ↦
        let rest = first_free-some ps e in
        let eq : i ≡ suc k = ground arith in rw eq (rest.0, UsedBelow-suc p ps k u rest.1)
  ]
  | inr f ↦
      let eq : i ≡ 0 = ground arith in (FreeAt-zero p ps i f eq, λ j q lt e. absurd (omega arith))
]

first_free-none : (ps : List Page) → first_free ps ≡ none → UsedBelow ps (length ps)
unfolding first_free
first_free-none [] h = λ j q lt e. absurd (omega arith)
first_free-none (p ∷ ps) h =
    UsedBelow-suc p ps (length ps) (ground arith) (first_free-none ps (ground arith))

first_free-eq-some :
    (ps : List Page) (i : ℕ) → FreeAt ps i → UsedBelow ps i → first_free ps ≡ some i
unfolding first_free
first_free-eq-some [] i (p, e, f) below = absurd (ground arith)
first_free-eq-some (p ∷ ps) zero (q, e, f) below = ground arith
first_free-eq-some (p ∷ ps) (suc i) (q, e, f) below = ground (
  arith,
  below 0 p (omega arith) refl,
  first_free-eq-some ps i (q, e, f) (λ j x lt at. below (suc j) x (omega arith) at),
)

-- What `get_free_page` gives: the lowest free page `i`, whose table entry is now taken and whose
-- contents are zero, and nothing else is touched.
pub record Taken (r : Ram) (i : ℕ) (addr : ℕ) (r' : Ram) : Type 0 where
  pub was_free : (p : Page) × (get_elem? r.mem_map i ≡ some p) × (in_use p ≡ false)
  pub lowest : UsedBelow r.mem_map i
  pub address : addr ≡ i * page_size % u32_mod
  pub now_used : (p : Page) × (get_elem? r'.mem_map i ≡ some p) × (in_use p ≡ true) × (p.count ≡ 1)
  pub others : (j : ℕ) → j ≢ i → get_elem? r'.mem_map j ≡ get_elem? r.mem_map j
  pub size : length r'.mem_map ≡ length r.mem_map
  pub zeroed : (a : ℕ) → va addr ≤ a → a < va addr + page_size → r'.mem a ≡ 0
  pub kept : (a : ℕ) → (a < va addr) ⊎ (va addr + page_size ≤ a) → r'.mem a ≡ r.mem a

-- Every run of `get_free_page` either takes the lowest free page, marks it, clears its memory and
-- changes no other page and no other memory; or panics with all pages in use.
pub get_free_page_lem :
    (r : Ram)
    → ((i : ℕ) × (addr : ℕ) × (r' : Ram) × (get_free_page r ≡ ok (addr, r')) × Taken r i addr r')
      ⊎ ((get_free_page r ≡ panicked) × UsedBelow r.mem_map (length r.mem_map))
unfolding get_free_page
get_free_page_lem r = elim (Option-cases (first_free r.mem_map)) [
  | inl e ↦ inr (rw (e, get_free_page) refl, first_free-none r.mem_map e)
  | inr (i, e) ↦
      let (free, below) = first_free-some r.mem_map e in
      let (p, at, unused) = free in
      let fit = lt-length_of_some r.mem_map i at in
      let addr : ℕ = i * page_size % u32_mod in
      inl (
        i,
        addr,
        record { mem_map = set r.mem_map i (claim p); mem = clear_page r.mem (va addr) },
        rw (e, get_free_page) (rw (at, get_free_page) refl),
        record {
          was_free = free;
          lowest = below;
          address = refl;
          now_used = (claim p, get_elem?-set_self r.mem_map i (claim p) fit, ground arith, refl);
          others = λ j ne. get_elem?-set_ne r.mem_map (claim p) (λ q. ne (sym q));
          size = length-set r.mem_map i (claim p);
          zeroed = λ a lo hi. ground arith;
          kept = λ a out. ground arith;
        },
      )
]

-- A page that was in use and is freed is free, its memory and the other pages are as before, and
-- a later `get_free_page` takes it or a lower one.
pub record Freed (r : Ram) (i : ℕ) (r' : Ram) : Type 0 where
  pub now_free : (p : Page) × (get_elem? r'.mem_map i ≡ some p) × (in_use p ≡ false)
  pub others : (j : ℕ) → j ≢ i → get_elem? r'.mem_map j ≡ get_elem? r.mem_map j
  pub size : length r'.mem_map ≡ length r.mem_map
  pub mem : r'.mem ≡ r.mem

-- Freeing the page with index `i`, at any address inside it, succeeds: afterwards that page is free,
-- and every other page and all memory are as before.
pub free_page_lem :
    (r : Ram) (i offset : ℕ)
    → i < length r.mem_map
    → offset < page_size
    → (r' : Ram) × (free_page (i * page_size + offset) r ≡ ok r') × Freed r i r'
unfolding free_page
free_page_lem r i offset fit small =
    let at : (i * page_size + offset) / page_size ≡ i = omega arith in
    let (p, e) = get_elem?_of_lt r.mem_map i fit in
    (
      record r { mem_map = set r.mem_map i (release p) },
      rw (at, e) refl,
      record {
        now_free = (release p, get_elem?-set_self r.mem_map i (release p) fit, refl);
        others = λ j ne. get_elem?-set_ne r.mem_map (release p) (λ q. ne (sym q));
        size = length-set r.mem_map i (release p);
        mem = refl;
      },
    )

-- A page that was just freed is handed out again once every lower page is in use, with cleared
-- contents.
pub get_free_page-free_page :
    (r r' : Ram) (i : ℕ)
    → i < length r.mem_map
    → UsedBelow r.mem_map i
    → free_page (i * page_size) r ≡ ok r'
    → (r'' : Ram) × (get_free_page r' ≡ ok (i * page_size % u32_mod, r''))
unfolding get_free_page
get_free_page-free_page r r' i fit below h =
    let (s, e, f) = free_page_lem r i 0 fit (omega arith) in
    let plain : i * page_size + 0 ≡ i * page_size = omega arith in
    let same : s ≡ r' = ground (arith, ap (λ (a : ℕ). free_page a r) plain) in
    let (p, at, unused) = f.now_free in
    let stop =
      first_free-eq-some s.mem_map i f.now_free
        (λ j q lt at'. below j q lt (sym (f.others j (omega arith)) ∙ at')) in
    (
      record {
        mem_map = set s.mem_map i (claim p);
        mem = clear_page s.mem (va (i * page_size % u32_mod));
      },
      rw (← same) (rw (stop, get_free_page) (rw (at, get_free_page) refl)),
    )
