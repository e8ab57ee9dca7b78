-- ===== src/Net/SkBuffer.antt =====
-- net/skbuffer.c: the queue of received buffers, linked both ways through the buffers themselves.
pub mod Queue
mod Tests
use jnix.Prelude.{ℕ, ◌==◌, if◌then◌else◌, List}

-- `struct sk_buffer`; a pointer is an address, 0 the null pointer. `data_ptr` is the field `data`.
pub record SkBuffer : Type 0 where
  pub dev : ℕ
  pub data_ptr : ℕ
  pub len : ℕ
  pub prev : ℕ
  pub next : ℕ

-- The buffers by address, and the two ends of the queue.
pub record Recv : Type 0 where
  pub buffers : ℕ → SkBuffer
  pub recv_head : ℕ
  pub recv_tail : ℕ

abbrev pub update : (ℕ → SkBuffer) → ℕ → SkBuffer → ℕ → SkBuffer
update m p b a = if a == p then b else m a

-- `p->next = v` and `p->prev = v`
abbrev pub set_next : (ℕ → SkBuffer) → ℕ → ℕ → ℕ → SkBuffer
set_next m p v = update m p (record (m p) { next = v })

abbrev pub set_prev : (ℕ → SkBuffer) → ℕ → ℕ → ℕ → SkBuffer
set_prev m p v = update m p (record (m p) { prev = v })

unfoldable pub skb_recv_push : ℕ → Recv → Recv
skb_recv_push skb r =
    if r.recv_tail == 0 then record r { recv_head = skb; recv_tail = skb } else record r {
      buffers = set_prev (set_next r.buffers r.recv_tail skb) skb r.recv_tail;
      recv_tail = skb;
    }

-- `if (recv_head->next) recv_head->next->prev = 0;`
abbrev pub cut : (ℕ → SkBuffer) → ℕ → ℕ → SkBuffer
cut m next = if next == 0 then m else set_prev m next 0

unfoldable pub skb_recv_shift : Recv → ℕ × Recv
skb_recv_shift r =
    let skb = r.recv_head in
    let next = (r.buffers skb).next in
    if skb == 0 then (0, record r { recv_tail = 0 }) else (
      skb,
      record {
        buffers = set_next (set_prev (cut r.buffers next) skb 0) skb 0;
        recv_head = next;
        recv_tail = if next == 0 then 0 else r.recv_tail;
      },
    )
