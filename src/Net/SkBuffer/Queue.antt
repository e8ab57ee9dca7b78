-- ===== src/Net/SkBuffer/Queue.antt =====
-- The receive queue of net/skbuffer.c against a list of buffers.
use jnix.Prelude.{
  ℕ, ◌≡◌, ◌≢◌, refl, sym, subst, ap, ◌∙◌, Bool, true, false, ◌||◌, List, [], ◌∷◌, ◌++◌, arith, ◌==◌,
  if◌then◌else◌,
}
use jnix.Net.SkBuffer.{SkBuffer, Recv, set_next, set_prev, skb_recv_push, cut, skb_recv_shift}

unfoldable pub member : ℕ → List ℕ → Bool
member x [] = false
member x (y ∷ ys) = (x == y) || member x ys

member-apart : (a b : ℕ) (xs : List ℕ) → member a xs ≡ false → member b xs ≡ true → a ≢ b
member-apart a b xs out there same = absurd (cc (sym out ∙ ap (λ n. member n xs) same ∙ there))

-- From `p` on, behind `before`, the buffers are linked both ways in the order of the list, the last
-- of them is `tail`, and no buffer comes twice.
unfoldable pub Chain : (ℕ → SkBuffer) → ℕ → ℕ → List ℕ → ℕ → Type 0
Chain m p before [] tail = (p ≡ 0) × (tail ≡ before)
Chain m p before (x ∷ xs) tail =
    (p ≡ x) × (x ≢ 0) × ((m x).prev ≡ before) × (member x xs ≡ false) × Chain m (m x).next x xs tail

-- The queue holds the buffers of the list, from head to tail.
unfoldable pub Holds : Recv → List ℕ → Type 0
unfolding Chain
Holds r xs = Chain r.buffers r.recv_head 0 xs r.recv_tail

-- A buffer that is in no list: neither of its links is set.
abbrev pub Unlinked : (ℕ → SkBuffer) → ℕ → Type 0
Unlinked m x = (x ≢ 0) × ((m x).prev ≡ 0) × ((m x).next ≡ 0)

Chain-end : (m : ℕ → SkBuffer) (p before tail : ℕ) → Chain m p before [] tail → tail ≡ before
unfolding Chain
Chain-end m p before tail c = c.1

-- A chain is as it was after links outside it change.
Chain-same :
    (m m' : ℕ → SkBuffer) (xs : List ℕ) (p before tail : ℕ)
    → ((x : ℕ) → member x xs ≡ true → m' x ≡ m x)
    → Chain m p before xs tail
    → Chain m' p before xs tail
unfolding Chain member
Chain-same m m' [] p before tail same c = c
Chain-same m m' (x ∷ xs) p before tail same (e, nz, back, once, rest) =
    let here : m' x ≡ m x = same x (ground arith) in
    let rest' = Chain-same m m' xs (m x).next x tail (λ y in_xs. same y (ground arith)) rest in
    (
      e,
      nz,
      ap (λ (b : SkBuffer). b.prev) here ∙ back,
      once,
      subst (λ n. Chain m' n x xs tail) (sym (ap (λ (b : SkBuffer). b.next) here)) rest',
    )

member-tail :
    (m : ℕ → SkBuffer) (x : ℕ) (xs : List ℕ) (p before tail : ℕ)
    → Chain m p before (x ∷ xs) tail
    → (member tail (x ∷ xs) ≡ true) × (tail ≢ 0)
unfolding Chain member
member-tail m x [] p before tail (e, nz, back, once, (end, last)) = (ground arith, ground arith)
member-tail m x (y ∷ ys) p before tail (e, nz, back, once, rest) =
    let (there, pos) = member-tail m y ys (m x).next x tail rest in (ground arith, pos)

member-append_one : (x y : ℕ) (xs : List ℕ) → member x (xs ++ (y ∷ [])) ≡ member x xs || (x == y)
unfolding member
member-append_one x y [] = ground arith
member-append_one x y (z ∷ zs) = ground (arith, member-append_one x y zs)

-- The links after a push behind a tail.
abbrev pushed : (ℕ → SkBuffer) → ℕ → ℕ → ℕ → SkBuffer
pushed m tail skb = set_prev (set_next m tail skb) skb tail

pushed-other : (m : ℕ → SkBuffer) (tail skb a : ℕ) → a ≢ tail → a ≢ skb → pushed m tail skb a ≡ m a
pushed-other m tail skb a n₁ n₂ = ground arith

pushed-tail :
    (m : ℕ → SkBuffer) (tail skb : ℕ)
    → skb ≢ tail
    → pushed m tail skb tail ≡ record (m tail) { next = skb }
pushed-tail m tail skb ne = ground arith

pushed-skb :
    (m : ℕ → SkBuffer) (tail skb : ℕ)
    → skb ≢ tail
    → pushed m tail skb skb ≡ record (m skb) { prev = tail }
pushed-skb m tail skb ne = ground arith

Chain-push :
    (m : ℕ → SkBuffer) (x : ℕ) (xs : List ℕ) (p before tail skb : ℕ)
    → Chain m p before (x ∷ xs) tail
    → Unlinked m skb
    → member skb (x ∷ xs) ≡ false
    → Chain (pushed m tail skb) p before (x ∷ (xs ++ (skb ∷ []))) skb
unfolding Chain member
Chain-push m x [] p before tail skb (e, nz, back, once, (end, last)) (ne, prev, next) new =
    let apart : skb ≢ x = ground arith in
    let here =
      subst (λ t. pushed m t skb x ≡ record (m x) { next = skb }) (sym last)
        (pushed-tail m x skb apart) in
    let there =
      subst (λ t. pushed m t skb skb ≡ record (m skb) { prev = x }) (sym last)
        (pushed-skb m x skb apart) in
    (
      e,
      nz,
      ap (λ (b : SkBuffer). b.prev) here ∙ back,
      ground arith,
      (
        ap (λ (b : SkBuffer). b.next) here,
        ne,
        ap (λ (b : SkBuffer). b.prev) there,
        refl,
        (ap (λ (b : SkBuffer). b.next) there ∙ next, refl),
      ),
    )
Chain-push m x (y ∷ ys) p before tail skb (e, nz, back, once, rest) unlinked new =
    let in_rest = (member-tail m y ys (m x).next x tail rest).0 in
    let off : x ≢ tail = ground arith in
    let apart : x ≢ skb = ground arith in
    let here : pushed m tail skb x ≡ m x = pushed-other m tail skb x off apart in
    let rest' = Chain-push m y ys (m x).next x tail skb rest unlinked (ground arith) in
    (
      e,
      nz,
      ap (λ (b : SkBuffer). b.prev) here ∙ back,
      ground (arith, member-append_one x skb (y ∷ ys)),
      subst (λ n. Chain (pushed m tail skb) n x (y ∷ (ys ++ (skb ∷ []))) skb)
          (sym (ap (λ (b : SkBuffer). b.next) here)) rest',
    )

push-empty :
    (r : Recv) (skb : ℕ)
    → r.recv_tail ≡ 0
    → record r { recv_head = skb; recv_tail = skb } ≡ skb_recv_push skb r
unfolding skb_recv_push
push-empty r skb h = let empty : (r.recv_tail == 0) ≡ true = ground arith in rw empty refl

push-filled :
    (r : Recv) (skb : ℕ)
    → r.recv_tail ≢ 0
    → record r { buffers = pushed r.buffers r.recv_tail skb; recv_tail = skb } ≡ skb_recv_push skb r
unfolding skb_recv_push
push-filled r skb h = let filled : (r.recv_tail == 0) ≡ false = ground arith in rw filled refl

Holds-one :
    (r : Recv) (x : ℕ)
    → Unlinked r.buffers x
    → Holds (record r { recv_head = x; recv_tail = x }) (x ∷ [])
unfolding Holds Chain member
Holds-one r x (ne, prev, next) = (refl, ne, prev, refl, (next, refl))

-- Pushing a buffer that is in no list and not in the queue puts it behind the others.
pub skb_recv_push_lem :
    (r : Recv) (xs : List ℕ) (skb : ℕ)
    → Holds r xs
    → Unlinked r.buffers skb
    → member skb xs ≡ false
    → Holds (skb_recv_push skb r) (xs ++ (skb ∷ []))
unfolding Holds
skb_recv_push_lem r [] skb h unlinked new =
    subst (λ s. Holds s (skb ∷ []))
      (push-empty r skb (Chain-end r.buffers r.recv_head 0 r.recv_tail h))
      (Holds-one r skb unlinked)
skb_recv_push_lem r (x ∷ xs) skb h unlinked new =
    subst (λ s. Holds s (x ∷ (xs ++ (skb ∷ []))))
      (push-filled r skb (member-tail r.buffers x xs r.recv_head 0 r.recv_tail h).1)
      (Chain-push r.buffers x xs r.recv_head 0 r.recv_tail skb h unlinked new)

-- The links after the head `x` of the queue is taken out.
abbrev shifted : (ℕ → SkBuffer) → ℕ → ℕ → ℕ → SkBuffer
shifted m x next = set_next (set_prev (cut m next) x 0) x 0

Unlinked-shifted : (m : ℕ → SkBuffer) (x next : ℕ) → x ≢ 0 → Unlinked (shifted m x next) x
Unlinked-shifted m x next nz = (nz, ground arith, ground arith)

shifted-other :
    (m : ℕ → SkBuffer) (x next a : ℕ) → next ≢ 0 → a ≢ x → a ≢ next → shifted m x next a ≡ m a
shifted-other m x next a nz n₁ n₂ = ground arith

Chain-shift :
    (m : ℕ → SkBuffer) (x y : ℕ) (ys : List ℕ) (tail : ℕ)
    → Chain m y x (y ∷ ys) tail
    → member x (y ∷ ys) ≡ false
    → Chain (shifted m x y) y 0 (y ∷ ys) tail
unfolding Chain member
Chain-shift m x y ys tail (e, nz, back, once, rest) off =
    let here : (shifted m x y y).next ≡ (m y).next = ground arith in
    let rest' =
      Chain-same m (shifted m x y) ys (m y).next y tail
        (λ a in_ys. shifted-other m x y a nz (ground arith) (ground arith)) rest in
    (refl, nz, ground arith, once, subst (λ n. Chain (shifted m x y) n y ys tail) (sym here) rest')

-- What `skb_recv_shift` returns: the head, in no list any more, with the rest left in the queue; or
-- the null pointer if the queue is empty.
abbrev pub Shifts : List ℕ → ℕ × Recv → Type 0
Shifts [] (skb, r) = (skb ≡ 0) × Holds r []
Shifts (x ∷ xs) (skb, r) = (skb ≡ x) × Holds r xs × Unlinked r.buffers x

shift-empty : (r : Recv) → r.recv_head ≡ 0 → (0, record r { recv_tail = 0 }) ≡ skb_recv_shift r
unfolding skb_recv_shift
shift-empty r h = let empty : (r.recv_head == 0) ≡ true = ground arith in rw empty refl

shift-filled :
    (r : Recv) (x next : ℕ)
    → r.recv_head ≡ x
    → x ≢ 0
    → (r.buffers x).next ≡ next
    → (
      x,
      record {
        buffers = shifted r.buffers x next;
        recv_head = next;
        recv_tail = if next == 0 then 0 else r.recv_tail;
      },
    )
      ≡ skb_recv_shift r
unfolding skb_recv_shift
shift-filled r x next h nz n =
    let filled : (r.recv_head == 0) ≡ false = ground arith in
    let n' : (r.buffers r.recv_head).next ≡ next = ap (λ a. (r.buffers a).next) h ∙ n in
    rw (← n') (rw (← h) (rw filled refl))

-- Shifting, on a queue that holds any list of buffers.
pub skb_recv_shift_lem : (r : Recv) (xs : List ℕ) → Holds r xs → Shifts xs (skb_recv_shift r)
unfolding Holds Chain
skb_recv_shift_lem r [] (e, last) = subst (λ s. Shifts [] s) (shift-empty r e) (refl, (e, refl))
skb_recv_shift_lem r (x ∷ []) (e, nz, back, once, (end, last)) =
    subst (λ s. Shifts (x ∷ []) s) (shift-filled r x 0 e nz end)
      (refl, (refl, refl), Unlinked-shifted r.buffers x 0 nz)
skb_recv_shift_lem r (x ∷ y ∷ ys) (e, nz, back, once, (n, pos, back', once', more)) =
    let last : r.recv_tail ≡ (if y == 0 then 0 else r.recv_tail) = ground arith in
    subst (λ s. Shifts (x ∷ y ∷ ys) s) (shift-filled r x y e nz n)
      (
        refl,
        subst (λ t. Chain (shifted r.buffers x y) y 0 (y ∷ ys) t) last
            (Chain-shift r.buffers x y ys r.recv_tail (refl, pos, back', once', more) once),
        Unlinked-shifted r.buffers x y nz,
      )

-- A push changes no buffer but the one that is pushed and those in the queue.
pub skb_recv_push-others :
    (r : Recv) (xs : List ℕ) (skb a : ℕ)
    → Holds r xs
    → a ≢ skb
    → member a xs ≡ false
    → (skb_recv_push skb r).buffers a ≡ r.buffers a
unfolding Holds
skb_recv_push-others r [] skb a h ne out =
    ap (λ (s : Recv). s.buffers a)
      (sym (push-empty r skb (Chain-end r.buffers r.recv_head 0 r.recv_tail h)))
skb_recv_push-others r (x ∷ xs) skb a h ne out =
    let (there, pos) = member-tail r.buffers x xs r.recv_head 0 r.recv_tail h in
    ap (λ (s : Recv). s.buffers a) (sym (push-filled r skb pos))
    ∙ pushed-other r.buffers r.recv_tail skb a (member-apart a r.recv_tail (x ∷ xs) out there) ne
