-- ===== src/Wire/Endian.antt =====
-- 32-bit numbers in memory and on the wire: `htonl` and `ntohl` on hosts of either byte order.
use shared_state_async.Prelude.{ℕ, ◌+◌, ◌*◌, ◌/◌, ◌%◌, ◌^◌, ◌<◌, [], ◌∷◌, ◌≡◌, refl, arith, length}
use shared_state_async.Prelude.Bytes.{Bytes}

pub data Endian : Type 0 where
  little big : Endian

-- The four bytes of a number, the most significant first: network byte order.
unfoldable pub be32 : ℕ → Bytes
be32 n = (n / 2 ^ 24 % 256) ∷ (n / 2 ^ 16 % 256) ∷ (n / 2 ^ 8 % 256) ∷ (n % 256) ∷ []

-- What a `uint32_t` variable holds in memory.
unfoldable pub store32 : Endian → ℕ → Bytes
unfolding be32
store32 big n = be32 n
store32 little n = (n % 256) ∷ (n / 2 ^ 8 % 256) ∷ (n / 2 ^ 16 % 256) ∷ (n / 2 ^ 24 % 256) ∷ []

-- The number in four bytes of memory.
unfoldable pub load32 : Endian → Bytes → ℕ
load32 big (a ∷ b ∷ c ∷ d ∷ []) = a * 2 ^ 24 + b * 2 ^ 16 + c * 2 ^ 8 + d
load32 little (a ∷ b ∷ c ∷ d ∷ []) = d * 2 ^ 24 + c * 2 ^ 16 + b * 2 ^ 8 + a
load32 _ _ = 0

-- The number whose memory representation on this host is the network byte order of the argument.
unfoldable pub htonl : Endian → ℕ → ℕ
unfolding store32 load32
htonl e n = load32 e (be32 n)

-- `ntohl` is the same exchange of bytes.
abbrev pub ntohl : Endian → ℕ → ℕ
ntohl = htonl

-- Sending the memory of `htonl(n)` puts the big-endian bytes on the wire, on any host.
pub store32-htonl : (e : Endian) (n : ℕ) → store32 e (htonl e n) ≡ be32 n
unfolding htonl
store32-htonl little n = ground arith
store32-htonl big n = ground arith

-- Reading four bytes from the wire into a variable and converting it gives the number back.
pub ntohl-load32 : (e : Endian) (n : ℕ) → n < 2 ^ 32 → ntohl e (load32 e (be32 n)) ≡ n
unfolding htonl
ntohl-load32 little n h = ground arith
ntohl-load32 big n h = ground arith

pub length-be32 : (n : ℕ) → length (be32 n) ≡ 4
unfolding be32
length-be32 n = refl

pub length-store32 : (e : Endian) (n : ℕ) → length (store32 e n) ≡ 4
unfolding store32
length-store32 big n = length-be32 n
length-store32 little n = omega arith
