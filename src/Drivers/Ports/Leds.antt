-- ===== src/Drivers/Ports/Leds.antt =====
-- Commands to a keyboard controller that becomes ready and acknowledges.
use jnix.Prelude.{
  ℕ, ◌/◌, ◌%◌, ◌≡◌, refl, ◌&&◌, not, Bool, true, false, List, [], ◌∷◌, ◌++◌, arith, ◌==◌, ok,
}
use jnix.Drivers.Keys.{kb_data, led_code, kb_ack}
use jnix.Drivers.Ports.{kb_wait, kb_acknowledged, command, leds_of, set_leds}

-- Every status says that the input buffer is full; no byte is the acknowledgement.
abbrev pub all_busy : List ℕ → Bool
all_busy [] = true
all_busy (a ∷ l) = (a / 2 % 2 == 1) && all_busy l

abbrev pub no_ack : List ℕ → Bool
no_ack [] = true
no_ack (a ∷ l) = not (a == kb_ack) && no_ack l

-- What the controller answers to one command: it is busy for a while, then ready, and after some
-- other bytes acknowledges.
pub record Answer : Type 0 where
  pub busy : List ℕ
  pub ready : ℕ
  pub others : List ℕ
  pub busy_first : all_busy busy ≡ true
  pub then_ready : (ready / 2 % 2 == 1) ≡ false
  pub others_before : no_ack others ≡ true

abbrev pub reads_of : Answer → List ℕ → List ℕ
reads_of a rest = a.busy ++ (a.ready ∷ (a.others ++ (kb_ack ∷ rest)))

kb_wait_lem :
    (busy rest : List ℕ) (ready : ℕ)
    → all_busy busy ≡ true
    → (ready / 2 % 2 == 1) ≡ false
    → kb_wait (busy ++ (ready ∷ rest)) ≡ ok rest
unfolding kb_wait
kb_wait_lem [] rest ready hb hr = rw hr refl
kb_wait_lem (a ∷ busy) rest ready hb hr =
    let h : (a / 2 % 2 == 1) ≡ true = ground arith in
    rw h (kb_wait_lem busy rest ready (ground arith) hr)

kb_acknowledged_lem :
    (others rest : List ℕ)
    → no_ack others ≡ true
    → kb_acknowledged (others ++ (kb_ack ∷ rest)) ≡ ok rest
unfolding kb_acknowledged
kb_acknowledged_lem [] rest h = refl
kb_acknowledged_lem (a ∷ others) rest h =
    let e : (a == kb_ack) ≡ false = ground arith in
    rw e (kb_acknowledged_lem others rest (ground arith))

command_lem :
    (value : ℕ) (a : Answer) (rest : List ℕ) (writes : List (ℕ × ℕ))
    → command value (record { reads = reads_of a rest; writes = writes })
      ≡ ok (record { reads = rest; writes = writes ++ ((value, kb_data) ∷ []) })
unfolding command
command_lem value a rest writes =
    rw (kb_wait_lem a.busy (a.others ++ (kb_ack ∷ rest)) a.ready a.busy_first a.then_ready)
      (rw (kb_acknowledged_lem a.others rest a.others_before) refl)

-- `set_leds` with a controller that answers both commands ends, reads no further than the second
-- acknowledgement, and has sent the command and then the state of the three lamps to the data port.
pub set_leds_lem :
    (caps_lock num_lock scroll_lock : Bool) (a b : Answer) (rest : List ℕ)
    → set_leds caps_lock num_lock scroll_lock
        (record { reads = reads_of a (reads_of b rest); writes = [] })
      ≡ ok (record {
        reads = rest;
        writes = (led_code, kb_data) ∷ (leds_of caps_lock num_lock scroll_lock, kb_data) ∷ [];
      })
unfolding set_leds
set_leds_lem caps_lock num_lock scroll_lock a b rest =
    rw (command_lem led_code a (reads_of b rest) [])
      (command_lem (leds_of caps_lock num_lock scroll_lock) b rest ((led_code, kb_data) ∷ []))
