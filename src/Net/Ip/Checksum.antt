-- ===== src/Net/Ip/Checksum.antt =====
-- The checksum of net/ip.c against arithmetic modulo 65535, and the agreement of the sender with the
-- receiver.
use jnix.Prelude.{
  all_bytes, ℕ, ◌+◌, ◌*◌, ◌/◌, ◌%◌, ◌≤◌, ◌<◌, ◌≡◌, refl, sym, subst, ap, ◌∙◌, true, List, [], ◌∷◌,
  arith, length, add32, ok, ◌>>=◌, u32_mod,
}
use jnix.Net.Bytes.{u16_mod, htons}
use jnix.Net.Packet.{bytes16, bytes32}
use jnix.Net.Ip.{sum_words, fold, complement16, ip_hdr_checksum}

-- The sum of the words in network order, a last single byte as it is.
unfoldable pub word_sum : List ℕ → ℕ
word_sum [] = 0
word_sum (a ∷ []) = a
word_sum (a ∷ b ∷ buffer) = a * 256 + b + word_sum buffer

pub word_sum-bound :
    (buffer : List ℕ) → all_bytes buffer ≡ true → word_sum buffer ≤ 65535 * length buffer
unfolding word_sum
word_sum-bound [] h = omega arith
word_sum-bound (a ∷ []) h = ground arith
word_sum-bound (a ∷ b ∷ buffer) h = ground (arith, word_sum-bound buffer)

htons-word : (a b : ℕ) → a < 256 → b < 256 → htons (a + 256 * b) ≡ a * 256 + b
unfolding htons
htons-word a b la lb = omega arith

sum_words_lem :
    (buffer : List ℕ) (cksum : ℕ)
    → all_bytes buffer ≡ true
    → cksum + word_sum buffer < u32_mod
    → sum_words (length buffer) buffer cksum ≡ ok (cksum + word_sum buffer)
unfolding sum_words word_sum
sum_words_lem [] cksum h lt = ap ok (omega arith)
sum_words_lem (a ∷ []) cksum h lt = ap ok (omega arith)
sum_words_lem (a ∷ b ∷ buffer) cksum h lt =
    let la : a < 256 = ground arith in
    let lb : b < 256 = ground arith in
    let rest : all_bytes buffer ≡ true = ground arith in
    let next : add32 cksum (htons (a + 256 * b)) ≡ cksum + (a * 256 + b) =
      ap (λ w. add32 cksum w) (htons-word a b la lb) ∙ omega arith in
    rw next (sum_words_lem buffer (cksum + (a * 256 + b)) rest (omega arith) ∙ ap ok (omega arith))

-- The complement of the folded sum makes up to a multiple of 65535 what was summed.
fold_lem : (s : ℕ) → s < u32_mod → (s + complement16 (fold s)) % 65535 ≡ 0
unfolding fold
fold_lem s lt = omega arith

fold-zero : (s : ℕ) → s < u32_mod → 0 < s → s % 65535 ≡ 0 → complement16 (fold s) ≡ 0
unfolding fold
fold-zero s lt pos h = omega arith

fold-pos : (s : ℕ) → s < u32_mod → 0 < s + complement16 (fold s)
unfolding fold
fold-pos s lt = omega arith

-- The checksum of any buffer of up to 65535 bytes is 16 bits wide and makes the sum of the words in
-- network order, with a last single byte taken as it is, up to a multiple of 65535.
pub ip_hdr_checksum_lem :
    (buffer : List ℕ)
    → all_bytes buffer ≡ true
    → length buffer < u16_mod
    → (c : ℕ) × (ip_hdr_checksum buffer (length buffer) ≡ ok c)
      × (c < u16_mod)
      × ((word_sum buffer + c) % 65535 ≡ 0)
unfolding ip_hdr_checksum
ip_hdr_checksum_lem buffer h small =
    let bound = word_sum-bound buffer h in
    let sum : sum_words (length buffer) buffer 0 ≡ ok (word_sum buffer) =
      sum_words_lem buffer 0 h (omega arith) ∙ ap ok (omega arith) in
    (
      complement16 (fold (word_sum buffer)),
      rw sum refl,
      omega arith,
      fold_lem (word_sum buffer) (omega arith),
    )

module _ (rest : List ℕ) (h : all_bytes rest ≡ true) where
  pub all_bytes-byte : (a : ℕ) → a < 256 → all_bytes (a ∷ rest) ≡ true
  all_bytes-byte a lt = ground arith

  pub all_bytes-bytes16 : (n : ℕ) → n < u16_mod → all_bytes (bytes16 n rest) ≡ true
  all_bytes-bytes16 n lt = ground arith

  pub all_bytes-bytes32 : (n : ℕ) → n < u32_mod → all_bytes (bytes32 n rest) ≡ true
  all_bytes-bytes32 n lt =
      let b₂ : n / 65536 % 256 < 256 = omega arith in
      let b₃ : n / 65536 / 256 < 256 = omega arith in ground arith

-- A buffer with a check field, `filled c` when the field holds `c`: filled in with the checksum of
-- the cleared buffer, in network order, it has the checksum 0.
pub check_filled :
    (filled : ℕ → List ℕ) (size : ℕ)
    → size < u16_mod
    → ((c : ℕ) → length (filled c) ≡ size)
    → ((c : ℕ) → c < u16_mod → all_bytes (filled (htons c)) ≡ true)
    → ((c : ℕ) → c < u16_mod → word_sum (filled (htons c)) ≡ word_sum (filled 0) + c)
    → (c : ℕ) × (c < u16_mod)
      × (ip_hdr_checksum (filled 0) size ≡ ok c)
      × (ip_hdr_checksum (filled (htons c)) size ≡ ok 0)
unfolding ip_hdr_checksum htons
check_filled filled size small long all sum =
    let s = word_sum (filled 0) in
    let c = complement16 (fold s) in
    let c_small : c < u16_mod = omega arith in
    let bound₀ = word_sum-bound (filled 0) (all 0 (omega arith)) in
    let bound = word_sum-bound (filled (htons c)) (all c c_small) in
    let s_small : s < u32_mod = omega (arith, bound₀, long 0, small) in
    let t_small : word_sum (filled (htons c)) < u32_mod =
      omega (arith, bound, long (htons c), small) in
    (
      c,
      c_small,
      checksum_of 0 (all 0 (omega arith)) s_small,
      checksum_of (htons c) (all c c_small) t_small
          ∙ ap ok (
              fold-zero _ t_small (subst (λ n. 0 < n) (sym (sum c c_small)) (fold-pos s s_small))
                (ap (λ n. n % 65535) (sum c c_small) ∙ fold_lem s s_small)),
    )
  where
    checksum_of :
        (c : ℕ)
        → all_bytes (filled c) ≡ true
        → word_sum (filled c) < u32_mod
        → ip_hdr_checksum (filled c) size ≡ ok (complement16 (fold (word_sum (filled c))))
    checksum_of c h lt =
        ap (λ k. sum_words k (filled c) 0 >>= λ s. ok (complement16 (fold s))) (sym (long c))
        ∙ ap (λ r. r >>= λ s. ok (complement16 (fold s)))
            (sum_words_lem (filled c) 0 h (omega arith) ∙ ap ok (omega arith))
