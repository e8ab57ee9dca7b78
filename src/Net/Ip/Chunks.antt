-- ===== src/Net/Ip/Chunks.antt =====
-- How `ip_send` of net/ip.c cuts a payload into pieces.
use jnix.Prelude.{
  ℕ, zero, suc, ◌+◌, ◌-◌, ◌*◌, ◌/◌, ◌%◌, ◌≤◌, ◌<◌, ◌≡◌, ◌⊎◌, inl, inr, refl, sym, subst, ap, ◌∙◌,
  Bool-cases, List, [], ◌∷◌, ◌++◌, arith, length, ltb, ok,
}
use jnix.Net.Bytes.{u16_mod}
use jnix.Net.Packet
use jnix.Net.Packet.{bytes16, first_bytes, Six, six}
use jnix.Net.Ip.Send.{chunk}

-- How many fragments there are, and how much of the payload they carry.
abbrev pub fragment_count : ℕ → ℕ
fragment_count size = (size + 1479) / 1480

abbrev pub carried : ℕ → ℕ
carried size = size - 20 * fragment_count size

abbrev pub take : ℕ → List ℕ → List ℕ
take zero xs = []
take (suc k) [] = []
take (suc k) (x ∷ xs) = x ∷ take k xs

pub first_bytes-take : (k : ℕ) (xs : List ℕ) → k ≤ length xs → first_bytes k xs ≡ ok (take k xs)
unfolding first_bytes
first_bytes-take zero xs le = refl
first_bytes-take (suc k) [] le = absurd (omega arith)
first_bytes-take (suc k) (x ∷ xs) le = rw (first_bytes-take k xs (omega arith)) refl

pub take_nil : (k : ℕ) → take k [] ≡ []
take_nil zero = refl
take_nil (suc k) = refl

pub take-add : (j k : ℕ) (xs : List ℕ) → take (j + k) xs ≡ take j xs ++ take k (Packet.skip j xs)
take-add zero k xs = ap (λ i. take i xs) (omega arith)
take-add (suc j) k [] = take_nil (suc j + k) ∙ sym (take_nil k)
take-add (suc j) k (x ∷ xs) =
    let one_more : suc j + k ≡ suc (j + k) = omega arith in
    ap (λ i. take i (x ∷ xs)) one_more ∙ ap (λ l. x ∷ l) (take-add j k xs)

pub chunk-small : (size : ℕ) → size ≤ 1480 → chunk size ≡ size
unfolding chunk
chunk-small size le = ground arith

pub chunk-large : (size : ℕ) → 1480 < size → chunk size ≡ 1480
unfolding chunk
chunk-large size lt = ground arith

-- What a turn of the loop takes off.
pub record ChunkFacts (size : ℕ) : Type 0 where
  pub enough : 20 ≤ chunk size
  pub within : chunk size ≤ size
  pub tail : ((size - chunk size) % 1480 ≡ 0) ⊎ (20 ≤ (size - chunk size) % 1480)
  pub split : carried size ≡ (chunk size - 20) + carried (size - chunk size)
  pub one_less : fragment_count size ≡ suc (fragment_count (size - chunk size))

pub chunk_facts : (size : ℕ) → 0 < size → (size % 1480 ≡ 0) ⊎ (20 ≤ size % 1480) → ChunkFacts size
chunk_facts size pos tail = elim (Bool-cases (ltb 1480 size)) [
  | inl more ↦
      let large : 1480 < size = ground arith in
      let k = chunk-large size large in
      let same : (size - chunk size) % 1480 ≡ size % 1480 = omega arith in
      record {
        enough = omega arith;
        within = omega arith;
        tail = subst (λ r. (r ≡ 0) ⊎ (20 ≤ r)) (sym same) tail;
        split = omega arith;
        one_less = omega arith;
      }
  | inr last ↦
      let le : size ≤ 1480 = ground arith in
      let k = chunk-small size le in
      let at_least : 20 ≤ size = elim tail [ inl whole ↦ omega arith | inr part ↦ omega arith ] in
      record {
        enough = omega arith;
        within = omega arith;
        tail = inl (omega arith);
        split = omega arith;
        one_less = omega arith;
      }
]

pub fits : (size : ℕ) → size < u16_mod → chunk size < u16_mod
unfolding chunk
fits size lt = ground arith

pub chunk-most : (size : ℕ) → chunk size ≤ 1480
unfolding chunk
chunk-most size = ground arith
