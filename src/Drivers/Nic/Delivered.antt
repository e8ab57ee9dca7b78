-- ===== src/Drivers/Nic/Delivered.antt =====
-- What `receive` of drivers/i386/am79c793.c delivers of the descriptors that the card has filled.
use jnix.Prelude.{
  ℕ, ◌+◌, ◌<◌, ◌≡◌, ◌≢◌, ◌==◌, ne-==, Bool-cases, ◌⊎◌, inl, inr, ◌/◌, ◌%◌, ◌^◌, sub32, refl, true,
  false, List, [], ◌∷◌, ◌++◌, map, arith, length, ok,
}
use jnix.Net.Packet.{first_bytes-append}
use jnix.Drivers.Nic.{BufferDescriptor, Nic, card_owns, whole_frame, take_frame, give_back, receive}
use jnix.Drivers.Nic.Receiving.{Ready, empty, next, taken, receive_row}

-- A row of descriptors that the card has given back, by the bits of their flags, with the frames in
-- them: a whole one has the bits of its start and end set and none for an error, and the length in
-- its flags counts the four bytes of the checksum behind it; any other is left out.
pub data Filled : List BufferDescriptor → List (List ℕ) → Type 0 where
  nothing : Filled [] []
  whole :
      {d : BufferDescriptor} {ds : List BufferDescriptor} {frames : List (List ℕ)}
      (bytes rest : List ℕ)
      → d.flags / 2 ^ 31 % 2 ≡ 0
      → d.flags / 2 ^ 30 % 2 ≡ 0
      → d.flags / 2 ^ 24 % 4 ≡ 3
      → d.flags2 % 4096 ≡ length bytes + 4
      → d.buffer ≡ bytes ++ rest
      → Filled ds frames
      → Filled (d ∷ ds) (bytes ∷ frames)
  damaged :
      {d : BufferDescriptor} {ds : List BufferDescriptor} {frames : List (List ℕ)}
      → d.flags / 2 ^ 31 % 2 ≡ 0
      → (d.flags / 2 ^ 30 % 2 ≡ 1) ⊎ (d.flags / 2 ^ 24 % 4 ≢ 3)
      → Filled ds frames
      → Filled (d ∷ ds) frames

-- The descriptors as the card has them again: its own, cleared, with their buffers.
pub data Returned : List BufferDescriptor → List BufferDescriptor → Type 0 where
  no_more : Returned [] []
  and :
      {d e : BufferDescriptor} {ds es : List BufferDescriptor}
      → card_owns e ≡ true
      → e.flags ≡ 0x8000F7FF
      → e.flags2 ≡ 0
      → e.buffer ≡ d.buffer
      → Returned ds es
      → Returned (d ∷ ds) (e ∷ es)

whole-take_frame :
    (d : BufferDescriptor) (bytes rest : List ℕ)
    → d.flags / 2 ^ 30 % 2 ≡ 0
    → d.flags / 2 ^ 24 % 4 ≡ 3
    → d.flags2 % 4096 ≡ length bytes + 4
    → d.buffer ≡ bytes ++ rest
    → take_frame d ≡ ok (bytes ∷ [])
unfolding take_frame whole_frame
whole-take_frame d bytes rest fine both size holds =
    let no_error : (d.flags / 2 ^ 30 % 2 == 1) ≡ false = ground arith in
    let bits : (d.flags / 2 ^ 24 % 4 == 3) ≡ true = ground arith in
    let count : sub32 (d.flags2 % 4096) 4 ≡ length bytes = omega (arith, size) in
    rw no_error (rw bits (rw count (rw holds (rw (first_bytes-append bytes rest) refl))))

damaged-take_frame :
    (d : BufferDescriptor)
    → (d.flags / 2 ^ 30 % 2 ≡ 1) ⊎ (d.flags / 2 ^ 24 % 4 ≢ 3)
    → take_frame d ≡ ok []
unfolding take_frame whole_frame
damaged-take_frame d (inl error) =
    let is_error : (d.flags / 2 ^ 30 % 2 == 1) ≡ true = ground arith in rw is_error refl
damaged-take_frame d (inr partial) =
    let no_bits : (d.flags / 2 ^ 24 % 4 == 3) ≡ false = ne-== (d.flags / 2 ^ 24 % 4) 3 partial in
    elim (Bool-cases (d.flags / 2 ^ 30 % 2 == 1)) [
      | inl error ↦ rw error refl
      | inr fine ↦ rw fine (rw no_bits refl)
    ]

free-card_owns : (d : BufferDescriptor) → d.flags / 2 ^ 31 % 2 ≡ 0 → card_owns d ≡ false
unfolding card_owns
free-card_owns d free = ground arith

Filled-Ready :
    {ready : List BufferDescriptor} {frames : List (List ℕ)}
    → Filled ready frames
    → Ready ready frames
Filled-Ready nothing = empty
Filled-Ready (whole {d} bytes rest free fine both size holds more) =
    next {here = bytes ∷ []} (free-card_owns d free)
      (whole-take_frame d bytes rest fine both size holds) (Filled-Ready more)
Filled-Ready (damaged {d} free why more) =
    next {here = []} (free-card_owns d free) (damaged-take_frame d why) (Filled-Ready more)

map-Returned : (ready : List BufferDescriptor) → Returned ready (map give_back ready)
unfolding card_owns
map-Returned [] = no_more
map-Returned (d ∷ ds) = and refl refl refl refl (map-Returned ds)

-- When the card has filled a row of descriptors from the current one on and holds the next, `receive`
-- with more fuel than there are filled ones pushes their frames in the order of the ring, without the
-- checksums and without the damaged ones, gives those descriptors back cleared, and goes on to the
-- first one that the card holds.
pub receive_lem :
    (pre ready : List BufferDescriptor) (stop : BufferDescriptor) (post : List BufferDescriptor)
    (frames got : List (List ℕ)) (n : Nic) (fuel : ℕ)
    → Filled ready frames
    → card_owns stop ≡ true
    → length pre + length ready < 32
    → length ready < fuel
    → (returned : List BufferDescriptor) × Returned ready returned
      × (receive fuel (taken (pre ++ (ready ++ (stop ∷ post))) (length pre) got n)
          ≡ ok (
              taken
                (pre ++ (returned ++ (stop ∷ post)))
                (length pre + length ready)
                (got ++ frames)
                n))
receive_lem pre ready stop post frames got n fuel row owned lt enough = (
  map give_back ready,
  map-Returned ready,
  receive_row pre ready stop post frames got n fuel (Filled-Ready row) owned lt enough,
)
