-- ===== src/Drivers/Inbuf/Fifo.antt =====
-- The ring of scan codes against a list of at most 32 bytes, the oldest first.
use jnix.Prelude.{
  ℕ, ◌+◌, ◌-◌, ◌%◌, ◌≤◌, ◌<◌, ◌≡◌, ◌≢◌, refl, subst, ◌∙◌, inl, inr, true, false, some, List, [],
  ◌∷◌, ◌++◌, arith, ltb, ◌==◌, if◌then◌else◌, Bool-cases, length, length-append, get_elem?, set,
  length-set, get_elem?-set_self, get_elem?-set_ne, get_elem?_of_lt, ok,
}
use jnix.Drivers.Keys.{kb_in_bytes}
use jnix.Drivers.Inbuf.{Inbuf, advance, put, get_tail, pop_buf}

-- From position `p` on, around the ring, stand the bytes of the list.
unfoldable pub Stands : List ℕ → ℕ → List ℕ → Type 0
Stands buf p [] = Unit
Stands buf p (c ∷ l) = (get_elem? buf p ≡ some c) × Stands buf (advance p) l

-- The buffer holds the bytes of the list.
pub record Holds (kb : Inbuf) (l : List ℕ) : Type 0 where
  pub sized : length kb.buf ≡ kb_in_bytes
  pub tail : kb.p_tail < kb_in_bytes
  pub head : kb.p_head ≡ (kb.p_tail + kb.count) % kb_in_bytes
  pub counted : kb.count ≡ length l
  pub fits : kb.count ≤ kb_in_bytes
  pub bytes : Stands kb.buf kb.p_tail l

-- Bytes before the end of the list stay when the position behind it is written.
Stands-set :
    (buf l : List ℕ) (p q c : ℕ)
    → p < kb_in_bytes
    → length l < kb_in_bytes
    → q ≡ (p + length l) % kb_in_bytes
    → length buf ≡ kb_in_bytes
    → Stands buf p l
    → Stands (set buf q c) p (l ++ (c ∷ []))
unfolding Stands
Stands-set buf [] p q c lt few e sized s =
    let same : q ≡ p = omega arith in
    (
      subst (λ k. get_elem? (set buf q c) k ≡ some c) same
          (get_elem?-set_self buf q c (omega arith)),
      tt,
    )
Stands-set buf (b ∷ l) p q c lt few e sized (here, rest) =
    let ne : q ≢ p = omega arith in
    let low : advance p < kb_in_bytes = ground arith in
    let same : q ≡ (advance p + length l) % kb_in_bytes = ground arith in
    (
      get_elem?-set_ne buf c ne ∙ here,
      Stands-set buf l (advance p) q c low (omega arith) same sized rest,
    )

pub get_tail_lem : (kb : Inbuf) (c : ℕ) (l : List ℕ) → Holds kb (c ∷ l) → get_tail kb ≡ ok c
unfolding get_tail Stands
get_tail_lem kb c l h =
    let counted = h.counted in
    let some_left : (kb.count == 0) ≡ false = ground arith in
    let here = h.bytes.0 in rw some_left (rw here refl)

Holds-more :
    (kb : Inbuf) (c : ℕ) (l : List ℕ)
    → Holds kb l
    → kb.count < kb_in_bytes
    → Holds
        (record kb {
          buf = set kb.buf kb.p_head c;
          p_head = advance kb.p_head;
          count = kb.count + 1;
        })
        (l ++ (c ∷ []))
Holds-more kb c l h free =
    let counted = h.counted in
    let tail = h.tail in
    let head = h.head in
    let longer = length-append l (c ∷ []) in
    record {
      sized = length-set kb.buf kb.p_head c ∙ h.sized;
      tail = tail;
      head = ground arith;
      counted = omega arith;
      fits = omega arith;
      bytes =
          Stands-set kb.buf l kb.p_tail kb.p_head c tail (omega arith) (omega arith) h.sized
            h.bytes;
    }

-- A byte that arrives goes behind the others, unless the buffer is full.
pub put_lem :
    (kb : Inbuf) (c : ℕ) (l : List ℕ)
    → Holds kb l
    → (kb' : Inbuf) × (put c kb ≡ ok kb')
      × Holds kb' (if ltb (length l) kb_in_bytes then l ++ (c ∷ []) else l)
unfolding put
put_lem kb c l h =
    let counted = h.counted in
    let tail = h.tail in
    let head = h.head in
    let fits = h.fits in
    let sized = h.sized in
    elim (Bool-cases (ltb kb.count kb_in_bytes)) [
      | inr full ↦
          let full' : ltb (length l) kb_in_bytes ≡ false = ground arith in
          (kb, rw full refl, rw full' h)
      | inl free ↦
          let free' : ltb (length l) kb_in_bytes ≡ true = ground arith in
          let (old, e) = get_elem?_of_lt kb.buf kb.p_head (omega arith) in
          (
            record kb {
              buf = set kb.buf kb.p_head c;
              p_head = advance kb.p_head;
              count = kb.count + 1;
            },
            rw free (rw e refl),
            rw free' (Holds-more kb c l h (ground arith)),
          )
    ]

-- `pop_buf` takes out the oldest byte.
pub pop_buf_lem :
    (kb : Inbuf) (c : ℕ) (l : List ℕ)
    → Holds kb (c ∷ l)
    → (kb' : Inbuf) × (pop_buf kb ≡ ok kb') × Holds kb' l
unfolding pop_buf Stands
pop_buf_lem kb c l h =
    let counted = h.counted in
    let tail = h.tail in
    let head = h.head in
    let fits = h.fits in
    let some_left : (kb.count == 0) ≡ false = ground arith in
    (
      record kb { p_tail = advance kb.p_tail; count = kb.count - 1 },
      rw some_left (rw (h.bytes.0) refl),
      record {
        sized = h.sized;
        tail = ground arith;
        head = ground arith;
        counted = omega arith;
        fits = omega arith;
        bytes = h.bytes.1;
      },
    )
