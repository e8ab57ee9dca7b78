-- ===== src/Drivers/Nic/Receiving.antt =====
-- `receive` of drivers/i386/am79c793.c over the ring of descriptors.
use jnix.Prelude.{
  ℕ, suc, ◌+◌, ◌-◌, ◌≤◌, ◌<◌, ◌≡◌, refl, sym, ap, ◌∙◌, Bool, true, false, Option, none, some, List,
  [], ◌∷◌, ◌++◌, map, arith, length, length-append, get_elem?, set, Run, ok, fault, ◌>>=◌, deref,
}
use mathlib.Core.List.{append-nil, append_assoc}
use jnix.Drivers.Nic.{
  BufferDescriptor, Nic, card_owns, take_frame, give_back, next_rx, take_in, receive,
}

get_elem?-append {ℓ} :
    {A : Type ℓ}
    → (xs : List A) (y : A) (ys : List A) → get_elem? (xs ++ (y ∷ ys)) (length xs) ≡ some y
get_elem?-append [] y ys = refl
get_elem?-append (x ∷ xs) y ys = get_elem?-append xs y ys

get_elem?-past {ℓ} : {A : Type ℓ} → (xs : List A) → get_elem? xs (length xs) ≡ none
get_elem?-past [] = refl
get_elem?-past (x ∷ xs) = get_elem?-past xs

set-append {ℓ} :
    {A : Type ℓ}
    → (xs : List A) (y z : A) (ys : List A) → set (xs ++ (y ∷ ys)) (length xs) z ≡ xs ++ (z ∷ ys)
set-append [] y z ys = refl
set-append (x ∷ xs) y z ys = ap (λ l. x ∷ l) (set-append xs y z ys)

-- The card has given back every descriptor of a row, and these are the frames in it, the damaged
-- and partial ones left out.
pub data Ready : List BufferDescriptor → List (List ℕ) → Type 0 where
  empty : Ready [] []
  next :
      {d : BufferDescriptor} {ds : List BufferDescriptor} {here there : List (List ℕ)}
      → card_owns d ≡ false
      → take_frame d ≡ ok here
      → Ready ds there
      → Ready (d ∷ ds) (here ++ there)

-- A card that has taken in the frames of some descriptors.
abbrev pub taken : List BufferDescriptor → ℕ → List (List ℕ) → Nic → Nic
taken ring current frames n = record n {
  recv_buffer_descr = ring;
  current_rx_buffer = current;
  received = frames;
}

pub next_rx-small : (i : ℕ) → i < 32 → next_rx i ≡ suc i
unfolding next_rx
next_rx-small i lt = ground arith

module _ (fuel : ℕ) (n : Nic) where
  choose : BufferDescriptor → Bool → Run Nic
  choose d owned = elim owned [ true ↦ ok n | false ↦ take_in d n >>= receive fuel ]

  look : Option BufferDescriptor → Run Nic
  look o = deref o >>= λ d. choose d (card_owns d)

  receive-at :
      (o : Option BufferDescriptor)
      → get_elem? n.recv_buffer_descr n.current_rx_buffer ≡ o
      → receive (suc fuel) n ≡ look o
  unfolding receive choose look
  receive-at o at = ap (λ d. deref d >>= λ d. choose d (card_owns d)) at

  pub receive-turn :
      (d : BufferDescriptor)
      → get_elem? n.recv_buffer_descr n.current_rx_buffer ≡ some d
      → card_owns d ≡ false
      → receive (suc fuel) n ≡ (take_in d n >>= receive fuel)
  unfolding choose look
  receive-turn d at free = receive-at (some d) at ∙ ap (choose d) free

  receive-take_in :
      (d : BufferDescriptor) (n' : Nic)
      → get_elem? n.recv_buffer_descr n.current_rx_buffer ≡ some d
      → card_owns d ≡ false
      → take_in d n ≡ ok n'
      → receive (suc fuel) n ≡ receive fuel n'
  receive-take_in d n' at free took = receive-turn d at free ∙ ap (λ r. r >>= receive fuel) took

  pub receive-stop :
      (d : BufferDescriptor)
      → get_elem? n.recv_buffer_descr n.current_rx_buffer ≡ some d
      → card_owns d ≡ true
      → receive (suc fuel) n ≡ ok n
  unfolding choose look
  receive-stop d at owned = receive-at (some d) at ∙ ap (choose d) owned

  pub receive-past :
      get_elem? n.recv_buffer_descr n.current_rx_buffer ≡ none → receive (suc fuel) n ≡ fault
  unfolding look
  receive-past at = receive-at none at

receive-step :
    (pre : List BufferDescriptor) (d : BufferDescriptor) (rest : List BufferDescriptor)
    (frames got : List (List ℕ)) (n : Nic) (fuel : ℕ)
    → card_owns d ≡ false
    → take_frame d ≡ ok frames
    → length pre < 32
    → receive (suc fuel) (taken (pre ++ (d ∷ rest)) (length pre) got n)
      ≡ receive fuel (taken (pre ++ (give_back d ∷ rest)) (suc (length pre)) (got ++ frames) n)
unfolding take_in
receive-step pre d rest frames got n fuel free holds lt =
    let m = taken (pre ++ (d ∷ rest)) (length pre) got n in
    receive-take_in fuel m d
      (taken (pre ++ (give_back d ∷ rest)) (suc (length pre)) (got ++ frames) n)
      (get_elem?-append pre d rest) free
      (rw holds
        (rw (set-append pre d (give_back d) rest) (rw (next_rx-small (length pre) lt) refl)))

receive-run :
    (ready : List BufferDescriptor) (frames : List (List ℕ))
    → Ready ready frames
    → (pre rest : List BufferDescriptor) (got : List (List ℕ)) (n : Nic) (fuel : ℕ)
    → length pre + length ready ≤ 32
    → receive (length ready + fuel) (taken (pre ++ (ready ++ rest)) (length pre) got n)
      ≡ receive fuel (
          taken
            (pre ++ (map give_back ready ++ rest))
            (length pre + length ready)
            (got ++ frames)
            n)
receive-run _ _ empty pre rest got n fuel le =
    let a = append-nil got in
    let none_left : length pre + 0 ≡ length pre = omega arith in
    let same : 0 + fuel ≡ fuel = omega arith in cc
receive-run _ _ (next {d} {ds} {here} {there} free holds more) pre rest got n fuel le =
    let longer : length (pre ++ (give_back d ∷ [])) ≡ suc (length pre) =
      length-append pre (give_back d ∷ []) ∙ omega arith in
    let run =
      receive-run ds there more (pre ++ (give_back d ∷ [])) rest (got ++ here) n fuel
        (omega arith) in
    let step =
      receive-step pre d (ds ++ rest) here got n (length ds + fuel) free holds (omega arith) in
    let a₁ = append_assoc pre (give_back d ∷ []) (ds ++ rest) in
    let a₂ = append_assoc pre (give_back d ∷ []) (map give_back ds ++ rest) in
    let a₃ = append_assoc got here there in
    let fuel_left : suc (length ds) + fuel ≡ suc (length ds + fuel) = omega arith in
    let count : suc (length pre) + length ds ≡ length pre + suc (length ds) = omega arith in cc

length-given :
    (pre ready : List BufferDescriptor)
    → length (pre ++ map give_back ready) ≡ length pre + length ready
length-given [] [] = omega arith
length-given [] (d ∷ ds) = omega (arith, length-given [] ds)
length-given (d ∷ pre) ready = omega (arith, length-given pre ready)

-- A row of filled descriptors, with the code's own words for what is done to each.
pub receive_row :
    (pre ready : List BufferDescriptor) (stop : BufferDescriptor) (post : List BufferDescriptor)
    (frames got : List (List ℕ)) (n : Nic) (fuel : ℕ)
    → Ready ready frames
    → card_owns stop ≡ true
    → length pre + length ready < 32
    → length ready < fuel
    → receive fuel (taken (pre ++ (ready ++ (stop ∷ post))) (length pre) got n)
      ≡ ok (
          taken
            (pre ++ (map give_back ready ++ (stop ∷ post)))
            (length pre + length ready)
            (got ++ frames)
            n)
receive_row pre ready stop post frames got n fuel row owned lt enough =
    let spare = fuel - suc (length ready) in
    let split : fuel ≡ length ready + suc spare = omega arith in
    let end = pre ++ map give_back ready in
    let reached : length pre + length ready ≡ length end = sym (length-given pre ready) in
    let run = receive-run ready frames row pre (stop ∷ post) got n (suc spare) (omega arith) in
    let stopped =
      receive-stop spare (taken (end ++ (stop ∷ post)) (length end) (got ++ frames) n) stop
        (get_elem?-append end stop post) owned in
    let a = append_assoc pre (map give_back ready) (stop ∷ post) in cc

-- When the card has filled every descriptor from the current one to the end of the ring, `receive`
-- reads one that lies behind the array.
pub receive-overrun :
    (pre ready : List BufferDescriptor) (frames got : List (List ℕ)) (n : Nic) (fuel : ℕ)
    → Ready ready frames
    → length pre + length ready ≡ 32
    → length ready < fuel
    → receive fuel (taken (pre ++ ready) (length pre) got n) ≡ fault
receive-overrun pre ready frames got n fuel row full enough =
    let spare = fuel - suc (length ready) in
    let split : fuel ≡ length ready + suc spare = omega arith in
    let end = pre ++ map give_back ready in
    let reached : length pre + length ready ≡ length end = sym (length-given pre ready) in
    let run = receive-run ready frames row pre [] got n (suc spare) (omega arith) in
    let past = receive-past spare (taken end (length end) (got ++ frames) n) (get_elem?-past end) in
    let a = append-nil (map give_back ready) in let b = append-nil ready in cc
