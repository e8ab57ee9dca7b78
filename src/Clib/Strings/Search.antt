-- ===== src/Clib/Strings/Search.antt =====
-- What the functions of lib/string.c that search find, on the strings that the memory holds.
use jnix.Prelude.{
  ℕ, zero, suc, ◌+◌, ◌≤◌, ◌<◌, ◌≡◌, ◌≢◌, refl, sym, ap, ◌∙◌, inl, inr, Bool, true, false, ◌||◌,
  Option, none, some, List, [], ◌∷◌, ◌++◌, arith, ◌==◌, Bool-cases, length, get_elem?, ok,
}
use mathlib.Core.Option.{some-injective, none-ne-some}
use jnix.Clib.Strings.{strchr, contains, strcspn}
use jnix.Clib.Strings.Compare.{is_text}

-- Whether the bytes have one that is `c`.
abbrev pub occurs : ℕ → List ℕ → Bool
occurs c [] = false
occurs c (a ∷ s) = (a == c) || occurs c s

-- What a search for `c` in the bytes may answer: none if it does not occur, or the first offset at
-- which it does.
abbrev pub Found : ℕ → List ℕ → Option ℕ → Type 0
Found c s none = occurs c s ≡ false
Found c s (some i) = (get_elem? s i ≡ some c) × ((j : ℕ) → j < i → get_elem? s j ≢ some c)

Found-step :
    (c a : ℕ) (s : List ℕ) (o : Option ℕ)
    → a ≢ c
    → Found c s o
    → Found c (a ∷ s) (elim o [ none ↦ none | some i ↦ some (suc i) ])
Found-step c a s none ne f = ground arith
Found-step c a s (some i) ne (at, first) = (at, λ j lt. before j lt)
  where
    before : (j : ℕ) → j < suc i → get_elem? (a ∷ s) j ≢ some c
    before zero lt e = ne (some-injective a c e)
    before (suc j) lt e = first j (omega arith) e

Found-here : (c a : ℕ) (s : List ℕ) → a ≡ c → Found c (a ∷ s) (some 0)
Found-here c a s e = (ap some e, λ j lt. absurd (omega arith))

-- `strchr` searches a string and the 0 that ends it, and no further.
pub strchr_lem :
    (s r : List ℕ) (c : ℕ)
    → is_text s ≡ true
    → (o : Option ℕ) × (strchr (s ++ (0 ∷ r)) c ≡ ok o) × Found c (s ++ (0 ∷ [])) o
unfolding strchr
strchr_lem [] r c h = elim (Bool-cases (0 == c)) [
  | inl same ↦ let e : 0 ≡ c = ground arith in (some 0, rw same refl, Found-here c 0 [] e)
  | inr other ↦ (none, rw other refl, ground arith)
]
strchr_lem (a ∷ s) r c h = elim (Bool-cases (a == c)) [
  | inl same ↦
      let e : a ≡ c = ground arith in (some 0, rw same refl, Found-here c a (s ++ (0 ∷ [])) e)
  | inr other ↦
      let nonzero : (a == 0) ≡ false = ground arith in
      let (o, run, f) = strchr_lem s r c (ground arith) in
      (
        elim o [ none ↦ none | some i ↦ some (suc i) ],
        rw other (rw nonzero (rw run refl)),
        Found-step c a (s ++ (0 ∷ [])) o (ground arith) f,
      )
]

contains_lem :
    (a : ℕ) (t r : List ℕ) → is_text t ≡ true → contains a (t ++ (0 ∷ r)) ≡ ok (occurs a t)
unfolding contains
contains_lem a [] r h = refl
contains_lem a (b ∷ t) r h = ground (arith, contains_lem a t r)

-- The first `n` bytes of `s` do not occur in `t`, and the one behind them, if there is one, does.
pub record Clear (s t : List ℕ) (n : ℕ) : Type 0 where
  pub within : n ≤ length s
  pub free : (j a : ℕ) → j < n → get_elem? s j ≡ some a → occurs a t ≡ false
  pub stop : (a : ℕ) → get_elem? s n ≡ some a → occurs a t ≡ true

Clear-zero : (a : ℕ) (s t : List ℕ) → occurs a t ≡ true → Clear (a ∷ s) t 0
Clear-zero a s t h = record {
  within = omega arith;
  free = λ j b lt e. absurd (omega arith);
  stop = λ b e. ap (λ x. occurs x t) (sym (some-injective a b e)) ∙ h;
}

Clear-suc :
    (a : ℕ) (s t : List ℕ) (n : ℕ) → occurs a t ≡ false → Clear s t n → Clear (a ∷ s) t (suc n)
Clear-suc a s t n h c = record {
  within = (let w = c.within in omega arith);
  free = before;
  stop = c.stop;
}
  where
    before : (j b : ℕ) → j < suc n → get_elem? (a ∷ s) j ≡ some b → occurs b t ≡ false
    before zero b lt e = ap (λ x. occurs x t) (sym (some-injective a b e)) ∙ h
    before (suc j) b lt e = c.free j b (omega arith) e

-- `strcspn` counts the bytes of the first string before the first that occurs in the second.
pub strcspn_lem :
    (s t r r' : List ℕ) (count : ℕ)
    → is_text s ≡ true
    → is_text t ≡ true
    → (n : ℕ) × (strcspn (s ++ (0 ∷ r)) (t ++ (0 ∷ r')) count ≡ ok (count + n)) × Clear s t n
unfolding strcspn
strcspn_lem [] t r r' count hs ht = (
  0,
  ap ok (omega arith),
  record {
    within = omega arith;
    free = λ j a lt e. absurd (omega arith);
    stop = λ a e. absurd (none-ne-some a e);
  },
)
strcspn_lem (a ∷ s) t r r' count hs ht =
    let nonzero : (a == 0) ≡ false = ground arith in
    let seen = contains_lem a t r' ht in
    elim (Bool-cases (occurs a t)) [
      | inl hit ↦ (0, rw nonzero (rw seen (rw hit (ap ok (omega arith)))), Clear-zero a s t hit)
      | inr miss ↦
          let (n, run, c) = strcspn_lem s t r r' (count + 1) (ground arith) ht in
          (
            suc n,
            rw nonzero (rw seen (rw miss (run ∙ ap ok (omega arith)))),
            Clear-suc a s t n miss c,
          )
    ]
