-- ===== src/Kernel/Thread/Turns.antt =====
-- The ring of kernel/thread.c, and whose turn it is in kernel/schedule.c.
use jnix.Prelude.{
  ℕ, zero, suc, ◌≡◌, ◌≢◌, refl, sym, subst, ap, ◌∙◌, Bool, true, false, some, List, [], ◌∷◌, ◌++◌,
  arith, ◌==◌, if◌then◌else◌, get_elem?,
}
use mathlib.Core.Option.{none-ne-some, some-injective}
use jnix.Kernel.Thread.{Threads, update, link, link_in, numbered, thread_create, schedule}

-- From `a` the threads of the list follow one another, and then `b`, in both directions.
unfoldable pub Chain : Threads → ℕ → List ℕ → ℕ → Type 0
Chain t a [] b = (t.next a ≡ b) × (t.prev b ≡ a)
Chain t a (x ∷ l) b = (t.next a ≡ x) × (t.prev x ≡ a) × Chain t x l b

-- None of the threads is `a`.
abbrev pub without : ℕ → List ℕ → Bool
without a [] = true
without a (x ∷ l) = if x == a then false else without a l

-- The threads of the ring: the first, then the list.
pub record Ring (t : Threads) (first : ℕ) (l : List ℕ) : Type 0 where
  pub table : t.thread_table ≡ some first
  pub chain : Chain t first l first
  pub once : without first l ≡ true

Chain-last : (t : Threads) (a : ℕ) (l : List ℕ) (b : ℕ) → Chain t a l b → t.next (t.prev b) ≡ b
unfolding Chain
Chain-last t a [] b (n, p) = ap t.next p ∙ n
Chain-last t a (x ∷ l) b (n, p, c) = Chain-last t x l b c

update_self : (f : ℕ → ℕ) (a v b : ℕ) → b ≡ a → update f a v b ≡ v
update_self f a v b e = let same : (b == a) ≡ true = ground arith in rw same refl

update_other : (f : ℕ → ℕ) (a v b : ℕ) → b ≢ a → update f a v b ≡ f b
update_other f a v b ne = let other : (b == a) ≡ false = ground arith in rw other refl

module _ (t : Threads) (first th : ℕ) (fresh : th ≢ first) where
  linked-Chain :
      (a : ℕ) (l : List ℕ)
      → Chain t a l first
      → t.next (t.prev first) ≡ first
      → a ≢ th
      → without first l ≡ true
      → without th l ≡ true
      → Chain (link first th t) a (l ++ (th ∷ [])) first
  unfolding Chain link
  linked-Chain a [] (n, p) back ne w u =
      let last = t.prev first in
      (
        update_self (update t.next th first) last th a (sym p),
        update_other (update t.prev th last) first th th fresh
            ∙ update_self t.prev th last th refl
            ∙ p,
        (
          update_other (update t.next th first) last th th (λ q. ne (sym (q ∙ p)))
              ∙ update_self t.next th first th refl,
          update_self (update t.prev th last) first th first refl,
        ),
      )
  linked-Chain a (x ∷ l) (n, p, c) back ne w u =
      let last = t.prev first in
      let x_first : x ≢ first = ground arith in
      let x_th : x ≢ th = ground arith in
      (
        update_other (update t.next th first) last th a (λ q. x_first (sym n ∙ ap t.next q ∙ back))
            ∙ update_other t.next th first a ne
            ∙ n,
        update_other (update t.prev th last) first th x x_first
            ∙ update_other t.prev th last x x_th
            ∙ p,
        linked-Chain x l c back x_th (ground arith) (ground arith),
      )

without-append :
    (a : ℕ) (l : List ℕ) (b : ℕ) → b ≢ a → without a l ≡ true → without a (l ++ (b ∷ [])) ≡ true
without-append a [] b ne w = ground arith
without-append a (x ∷ l) b ne w = let rest = without-append a l b ne in ground arith

-- The chain does not depend on anything but the links.
Chain-links :
    (t t' : Threads) (a : ℕ) (l : List ℕ) (b : ℕ)
    → t.next ≡ t'.next
    → t.prev ≡ t'.prev
    → Chain t a l b
    → Chain t' a l b
unfolding Chain
Chain-links t t' a [] b en ep (n, p) = (ap (λ f. f a) (sym en) ∙ n, ap (λ f. f b) (sym ep) ∙ p)
Chain-links t t' a (x ∷ l) b en ep (n, p, c) =
    (ap (λ f. f a) (sym en) ∙ n, ap (λ f. f x) (sym ep) ∙ p, Chain-links t t' x l b en ep c)

-- The state that `thread_create` leaves behind a first thread.
abbrev created : Threads → ℕ → ℕ → Threads
created t first th = record (link first th (numbered th t)) { current_thread = some th }

module _ (t : Threads) (first th : ℕ) where
  thread_create-created : t.thread_table ≡ some first → thread_create th t ≡ created t first th
  unfolding thread_create
  thread_create-created e =
      ap (λ o. record (link_in o th (numbered th t)) { current_thread = some th }) e

  created-next : (link first th t).next ≡ (created t first th).next
  unfolding link
  created-next = refl

  created-prev : (link first th t).prev ≡ (created t first th).prev
  unfolding link
  created-prev = refl

  created-table : (created t first th).thread_table ≡ t.thread_table
  unfolding link
  created-table = refl

  created-pid : (created t first th).pid_of th ≡ t.pid
  unfolding link
  created-pid = update_self t.pid_of th t.pid th refl

-- A thread that is created in a ring comes last in it: it is the current one, has the next number,
-- and the others keep their order.
pub thread_create_lem :
    (t : Threads) (first th : ℕ) (l : List ℕ)
    → Ring t first l
    → th ≢ first
    → without th l ≡ true
    → Ring (thread_create th t) first (l ++ (th ∷ []))
      × ((thread_create th t).current_thread ≡ some th)
      × ((thread_create th t).pid_of th ≡ t.pid)
thread_create_lem t first th l r fresh new =
    let rest =
      linked-Chain t first th fresh first l r.chain (Chain-last t first l first r.chain)
        (λ q. fresh (sym q)) r.once new in
    let whole : Ring (created t first th) first (l ++ (th ∷ [])) = record {
      table = created-table t first th ∙ r.table;
      chain =
          Chain-links (link first th t) (created t first th) first (l ++ (th ∷ [])) first
            (created-next t first th) (created-prev t first th) rest;
      once = without-append first l th fresh r.once;
    } in
    subst
      (λ t'.
        Ring t' first (l ++ (th ∷ [])) × (t'.current_thread ≡ some th) × (t'.pid_of th ≡ t.pid))
      (sym (thread_create-created t first th r.table)) (whole, refl, created-pid t first th)

-- `n` calls of `schedule`.
unfoldable pub turns : ℕ → Threads → Threads
turns zero t = t
turns (suc n) t = turns n (schedule t)

schedule-next :
    (t : Threads) (a : ℕ)
    → t.current_thread ≡ some a
    → schedule t ≡ record t { current_thread = some (t.next a) }
unfolding schedule
schedule-next t a e = rw (e, schedule) refl

turns-Chain :
    (t : Threads) (a : ℕ) (l : List ℕ) (b j x : ℕ)
    → Chain t a l b
    → t.current_thread ≡ some a
    → get_elem? (l ++ (b ∷ [])) j ≡ some x
    → (turns (suc j) t).current_thread ≡ some x
unfolding Chain turns
turns-Chain t a [] b zero x (n, p) e at =
    ap (λ (s : Threads). s.current_thread) (schedule-next t a e)
    ∙ ap some (n ∙ some-injective b x at)
turns-Chain t a [] b (suc j) x c e at = absurd (none-ne-some x at)
turns-Chain t a (y ∷ l) b zero x (n, p, c) e at =
    ap (λ (s : Threads). s.current_thread) (schedule-next t a e)
    ∙ ap some (n ∙ some-injective y x at)
turns-Chain t a (y ∷ l) b (suc j) x (n, p, c) e at =
    let t' : Threads = record t { current_thread = some (t.next a) } in
    ap (λ (s : Threads). (turns (suc j) s).current_thread) (schedule-next t a e)
    ∙ turns-Chain t' y l b j x (Chain-links t t' y l b refl refl c) (ap some n) at

-- In a ring whose first thread runs, every thread gets its turn: `schedule` goes through them in
-- their order, and then comes back to the first.
pub turns_lem :
    (t : Threads) (first : ℕ) (l : List ℕ) (j x : ℕ)
    → Ring t first l
    → t.current_thread ≡ some first
    → get_elem? (l ++ (first ∷ [])) j ≡ some x
    → (turns (suc j) t).current_thread ≡ some x
turns_lem t first l j x r e at = turns-Chain t first l first j x r.chain e at
