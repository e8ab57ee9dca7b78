-- ===== src/Clib/Strings/Compare.antt =====
-- What the functions of lib/string.c that compare find, on the strings that the memory
-- holds.
use jnix.Prelude.{
  all_bytes, ℕ, ◌<◌, ◌≡◌, ◌≢◌, refl, ◌∙◌, ◌↔◌, inl, inr, Bool, true, false, ◌&&◌, ◌||◌, not, List,
  [], ◌∷◌, ◌++◌, arith, ltb, ◌==◌, Bool-cases, length, sub32, ok,
}
use jnix.Clib.Strings.{extend, strcmp, memcmp}

-- The bytes of a string: none is 0.
abbrev pub is_text : List ℕ → Bool
is_text [] = true
is_text (a ∷ s) = ltb 0 a && ltb a 256 && is_text s

strcmp-stop :
    (a b : ℕ) (p1 p2 : List ℕ)
    → (a == 0 || b == 0 || not (a == b)) ≡ true
    → strcmp (a ∷ p1) (b ∷ p2) ≡ ok (sub32 (extend a) (extend b))
unfolding strcmp
strcmp-stop a b p1 p2 h = rw h refl

strcmp-go :
    (a b : ℕ) (p1 p2 : List ℕ)
    → (a == 0 || b == 0 || not (a == b)) ≡ false
    → strcmp (a ∷ p1) (b ∷ p2) ≡ strcmp p1 p2
unfolding strcmp
strcmp-go a b p1 p2 h = rw h refl

extend-apart : (a b : ℕ) → a < 256 → b < 256 → a ≢ b → sub32 (extend a) (extend b) ≢ 0
extend-apart a b la lb ne z = ne (ground arith)

-- `strcmp` of two strings ends, whatever follows them, and returns 0 exactly if they are equal.
pub strcmp_lem :
    (s t r r' : List ℕ)
    → is_text s ≡ true
    → is_text t ≡ true
    → (n : ℕ) × (strcmp (s ++ (0 ∷ r)) (t ++ (0 ∷ r')) ≡ ok n) × ((n ≡ 0) ↔ (s ≡ t))
strcmp_lem [] [] r r' hs ht =
    (sub32 (extend 0) (extend 0), strcmp-stop 0 0 r r' refl, (λ z. refl, λ e. refl))
strcmp_lem [] (b ∷ t) r r' hs ht =
    let apart = extend-apart 0 b (omega arith) (ground arith) (ground arith) in
    (
      sub32 (extend 0) (extend b),
      strcmp-stop 0 b r (t ++ (0 ∷ r')) refl,
      (λ z. absurd (apart z), λ e. absurd (cc e)),
    )
strcmp_lem (a ∷ s) [] r r' hs ht =
    let apart = extend-apart a 0 (ground arith) (omega arith) (ground arith) in
    (
      sub32 (extend a) (extend 0),
      strcmp-stop a 0 (s ++ (0 ∷ r)) r' (ground arith),
      (λ z. absurd (apart z), λ e. absurd (cc e)),
    )
strcmp_lem (a ∷ s) (b ∷ t) r r' hs ht = elim (Bool-cases (a == b)) [
  | inl same ↦
      let (n, run, (to, from)) = strcmp_lem s t r r' (ground arith) (ground arith) in
      let eq : a ≡ b = ground arith in
      (
        n,
        strcmp-go a b (s ++ (0 ∷ r)) (t ++ (0 ∷ r')) (ground arith) ∙ run,
        (λ z. cc (eq, to z), λ e. from (cc e)),
      )
  | inr other ↦
      let ne : a ≢ b = ground arith in
      let apart = extend-apart a b (ground arith) (ground arith) ne in
      (
        sub32 (extend a) (extend b),
        strcmp-stop a b (s ++ (0 ∷ r)) (t ++ (0 ∷ r')) (ground arith),
        (λ z. absurd (apart z), λ e. absurd (ne (cc e))),
      )
]

memcmp-differ : (a b : ℕ) → a < 256 → b < 256 → a ≢ b → sub32 a b ≢ 0
memcmp-differ a b la lb ne z = ne (ground arith)

-- `memcmp` of as many bytes as both objects have returns 0 exactly if they are equal.
pub memcmp_lem :
    (s t r r' : List ℕ)
    → length s ≡ length t
    → all_bytes s ≡ true
    → all_bytes t ≡ true
    → (n : ℕ) × (memcmp (s ++ r) (t ++ r') (length s) ≡ ok n) × ((n ≡ 0) ↔ (s ≡ t))
unfolding memcmp
memcmp_lem [] [] r r' e hs ht = (0, refl, (λ z. refl, λ q. refl))
memcmp_lem [] (b ∷ t) r r' e hs ht = absurd (omega arith)
memcmp_lem (a ∷ s) [] r r' e hs ht = absurd (omega arith)
memcmp_lem (a ∷ s) (b ∷ t) r r' e hs ht = elim (Bool-cases (a == b)) [
  | inl same ↦
      let (n, run, (to, from)) = memcmp_lem s t r r' (omega arith) (ground arith) (ground arith) in
      let eq : a ≡ b = ground arith in (n, rw same run, (λ z. cc (eq, to z), λ q. from (cc q)))
  | inr other ↦
      let ne : a ≢ b = ground arith in
      let apart = memcmp-differ a b (ground arith) (ground arith) ne in
      (sub32 a b, rw other refl, (λ z. absurd (apart z), λ q. absurd (ne (cc q))))
]
