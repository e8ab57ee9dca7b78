-- ===== src/Net/SkBuffer/Tests.antt =====
-- The receive queue with two buffers in it.
use jnix.Prelude.{ℕ, ◌≡◌, refl, [], ◌∷◌, arith, ◌==◌, if◌then◌else◌}
use jnix.Net.SkBuffer.{SkBuffer, Recv, skb_recv_push, skb_recv_shift}
use jnix.Net.SkBuffer.Queue.{member, Holds, Chain, Shifts, skb_recv_push_lem, skb_recv_shift_lem}

abbrev linked : ℕ → ℕ → SkBuffer
linked prev next = record { dev = 9; data_ptr = 0; len = 0; prev = prev; next = next }

abbrev recv : Recv
recv = record {
  buffers = λ a. if a == 1 then linked 0 2 else if a == 2 then linked 1 0 else linked 0 0;
  recv_head = 1;
  recv_tail = 2;
}

recv-Holds : Holds recv (1 ∷ 2 ∷ [])
unfolding Holds Chain member
recv-Holds = (refl, omega arith, refl, refl, (refl, omega arith, refl, refl, (refl, refl)))

shift_test : (skb_recv_shift (skb_recv_shift (skb_recv_push 3 recv)).1).0 ≡ 2
unfolding skb_recv_shift skb_recv_push
shift_test = refl

skb_recv_push_lem_example : Holds (skb_recv_push 3 recv) (1 ∷ 2 ∷ 3 ∷ [])
unfolding member
skb_recv_push_lem_example =
    skb_recv_push_lem recv (1 ∷ 2 ∷ []) 3 recv-Holds (omega arith, refl, refl) refl

skb_recv_shift_lem_example : Shifts (1 ∷ 2 ∷ []) (skb_recv_shift recv)
skb_recv_shift_lem_example = skb_recv_shift_lem recv (1 ∷ 2 ∷ []) recv-Holds
