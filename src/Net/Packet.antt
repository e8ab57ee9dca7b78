-- ===== src/Net/Packet.antt =====
-- Reading fields of a packet, and how the numbers of include/net lie in memory.
use jnix.Prelude.{
  ◌∙◌, ℕ, zero, suc, ◌+◌, ◌-◌, ◌*◌, ◌/◌, ◌%◌, ◌<◌, ◌≡◌, refl, List, [], ◌∷◌, ◌++◌, arith, get_elem?,
  length, Run, ok, fault, ◌>>=◌, deref, u32_mod,
}

-- The bytes of an unsigned short, and of an unsigned int.
abbrev pub bytes16 : ℕ → List ℕ → List ℕ
bytes16 n rest = n % 256 ∷ n / 256 ∷ rest

abbrev pub bytes32 : ℕ → List ℕ → List ℕ
bytes32 n rest = n % 256 ∷ n / 256 % 256 ∷ n / 65536 % 256 ∷ n / 65536 / 256 ∷ rest

unfoldable pub read8 : List ℕ → ℕ → Run ℕ
read8 packet i = deref (get_elem? packet i)

unfoldable pub read16 : List ℕ → ℕ → Run ℕ
read16 packet i = do a ← read8 packet i; b ← read8 packet (i + 1); ok (a + 256 * b)

unfoldable pub read32 : List ℕ → ℕ → Run ℕ
read32 packet i = do a ← read16 packet i; b ← read16 packet (i + 2); ok (a + 65536 * b)

-- `memcpy` of `n` bytes out of a packet.
unfoldable pub first_bytes : ℕ → List ℕ → Run (List ℕ)
first_bytes zero packet = ok []
first_bytes (suc n) [] = fault
first_bytes (suc n) (a ∷ packet) = do rest ← first_bytes n packet; ok (a ∷ rest)

abbrev pub skip : ℕ → List ℕ → List ℕ
skip zero packet = packet
skip (suc i) [] = []
skip (suc i) (a ∷ packet) = skip i packet

pub length-skip : (k : ℕ) (xs : List ℕ) → length (skip k xs) ≡ length xs - k
length-skip zero xs = omega arith
length-skip (suc k) [] = omega arith
length-skip (suc k) (x ∷ xs) = length-skip k xs ∙ omega arith

pub first_bytes-append : (xs ys : List ℕ) → first_bytes (length xs) (xs ++ ys) ≡ ok xs
unfolding first_bytes
first_bytes-append [] ys = refl
first_bytes-append (x ∷ xs) ys = rw (first_bytes-append xs ys) refl

pub first_bytes_all : (xs : List ℕ) → first_bytes (length xs) xs ≡ ok xs
unfolding first_bytes
first_bytes_all [] = refl
first_bytes_all (x ∷ xs) = rw (first_bytes_all xs) refl

-- The numbers that the bytes of a field stand for.
pub bytes32-value :
    (n : ℕ)
    → n < u32_mod
    → n % 256 + 256 * (n / 256 % 256) + 65536 * (n / 65536 % 256 + 256 * (n / 65536 / 256)) ≡ n
bytes32-value n lt = omega arith

pub bytes16-value : (n : ℕ) → n % 256 + 256 * (n / 256) ≡ n
bytes16-value n = omega arith

-- A list of six elements, by its elements.
pub record Six (m : List ℕ) : Type 0 where
  pub a : ℕ
  pub b : ℕ
  pub c : ℕ
  pub d : ℕ
  pub e : ℕ
  pub f : ℕ
  pub same : m ≡ a ∷ b ∷ c ∷ d ∷ e ∷ f ∷ []

pub six : (m : List ℕ) → length m ≡ 6 → Six m
six [] h = absurd (omega arith)
six (a ∷ []) h = absurd (omega arith)
six (a ∷ b ∷ []) h = absurd (omega arith)
six (a ∷ b ∷ c ∷ []) h = absurd (omega arith)
six (a ∷ b ∷ c ∷ d ∷ []) h = absurd (omega arith)
six (a ∷ b ∷ c ∷ d ∷ e ∷ []) h = absurd (omega arith)
six (a ∷ b ∷ c ∷ d ∷ e ∷ f ∷ []) h = record {
  a = a;
  b = b;
  c = c;
  d = d;
  e = e;
  f = f;
  same = refl;
}
six (a ∷ b ∷ c ∷ d ∷ e ∷ f ∷ g ∷ m) h = absurd (omega arith)
