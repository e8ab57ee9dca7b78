-- ===== src/Net/Bytes.antt =====
-- include/net/net.h: the order of bytes. The machine is little endian.
use jnix.Prelude.{ℕ, ◌+◌, ◌*◌, ◌/◌, ◌%◌, ◌^◌, ◌<◌, ◌≡◌, arith, u32_mod}

abbrev pub u16_mod : ℕ
u16_mod = 2 ^ 16

-- `(h << 8) | (h >> 8)`, as an unsigned short; the two parts have no bit in common.
unfoldable pub htons : ℕ → ℕ
htons h = h * 256 % u16_mod + h / 256

unfoldable pub ntohs : ℕ → ℕ
ntohs n = n * 256 % u16_mod + n / 256

-- `((h << 8) & 0xFF00FF00) | ((h >> 8) & 0xFF00FF)`: the bytes of each half change places.
unfoldable pub swap_halves : ℕ → ℕ
swap_halves h =
    h % 256 * 256 + h / 256 % 256 + (h / 65536 % 256 * 256 + h / 65536 / 256 % 256) * 65536

unfoldable pub htonl : ℕ → ℕ
unfolding swap_halves
htonl h₀ = let h = swap_halves h₀ in h * 65536 % u32_mod + h / 65536

unfoldable pub ntohl : ℕ → ℕ
unfolding swap_halves
ntohl n₀ = let n = swap_halves n₀ in n * 65536 % u32_mod + n / 65536

pub ntohs-htons : (h : ℕ) → h < u16_mod → ntohs (htons h) ≡ h
unfolding htons ntohs
ntohs-htons h lt = omega arith

pub htons-small : (h : ℕ) → h < u16_mod → htons h < u16_mod
unfolding htons
htons-small h lt = omega arith

-- Turning a word of 32 bits to network order and back.
pub ntohl-htonl : (h : ℕ) → h < u32_mod → ntohl (htonl h) ≡ h
unfolding htonl ntohl swap_halves
ntohl-htonl h lt = omega arith

pub htonl-small : (h : ℕ) → h < u32_mod → htonl h < u32_mod
unfolding htonl swap_halves
htonl-small h lt = omega arith

-- The bytes of a number in network order, read as the checksum reads them.
pub htons-bytes : (c : ℕ) → c < u16_mod → htons c % 256 * 256 + htons c / 256 ≡ c
unfolding htons
htons-bytes c lt = omega arith
