-- ===== src/Memory.antt =====
-- Blocks of memory as lists of bytes: `memcpy` with the bounds that C leaves to the caller, and
-- how a little-endian host lays out its integers.
use ntut_network_and_system.Base.{
  ℕ, ◌+◌, ◌*◌, ◌/◌, ◌%◌, ◌^◌, ◌≤◌, ◌<◌, ◌≡◌, ◌&&◌, List, [], ◌∷◌, ◌++◌, arith, if◌then◌else◌, leb,
  length, take, drop, length-append, length-take, length-drop, ◌∙◌, Run, done, fault, le-leb,
}

-- `memcpy(dst, src, n)`: the block `dst` afterwards.
unfoldable pub memcpy : List ℕ → List ℕ → ℕ → Run (List ℕ)
memcpy dst src n =
    if leb n (length src) && leb n (length dst) then done (take n src ++ drop n dst) else fault

pub memcpy-done :
    (dst src : List ℕ) (n : ℕ)
    → n ≤ length src
    → n ≤ length dst
    → memcpy dst src n ≡ done (take n src ++ drop n dst)
unfolding memcpy
memcpy-done dst src n h k = rw (le-leb n (length src) h, le-leb n (length dst) k)

-- A copy keeps the size of the block it writes to.
pub length-copy :
    (dst src : List ℕ) (n : ℕ)
    → n ≤ length src
    → n ≤ length dst
    → length (take n src ++ drop n dst) ≡ length dst
length-copy dst src n h k =
    length-append (take n src) (drop n dst) ∙ omega (arith, length-take n src, length-drop n dst)

-- A `uint32_t` in memory, and the number that four bytes hold.
unfoldable pub le32 : ℕ → List ℕ
le32 x = x % 256 ∷ x / 256 % 256 ∷ x / 65536 % 256 ∷ x / 16777216 % 256 ∷ []

unfoldable pub of_le32 : List ℕ → ℕ
of_le32 (a ∷ b ∷ c ∷ d ∷ rest) = a + b * 256 + c * 65536 + d * 16777216
of_le32 bs = 0

pub of_le32-le32 : (x : ℕ) (rest : List ℕ) → x < 2 ^ 32 → of_le32 (le32 x ++ rest) ≡ x
unfolding of_le32 le32
of_le32-le32 x rest h = omega arith

-- `htons` and `htonl` on such a host; `ntohs` and `ntohl` are the same functions.
unfoldable pub htons : ℕ → ℕ
htons x = x % 256 * 256 + x / 256 % 256

unfoldable pub htonl : ℕ → ℕ
htonl x = x % 256 * 16777216 + x / 256 % 256 * 65536 + x / 65536 % 256 * 256 + x / 16777216 % 256

abbrev pub ntohs : ℕ → ℕ
ntohs = htons

abbrev pub ntohl : ℕ → ℕ
ntohl = htonl

pub ntohs-htons : (x : ℕ) → x < 2 ^ 16 → ntohs (htons x) ≡ x
unfolding htons
ntohs-htons x h = omega arith

pub ntohl-htonl : (x : ℕ) → x < 2 ^ 32 → ntohl (htonl x) ≡ x
unfolding htonl
ntohl-htonl x h = omega arith

pub htons-lt : (x : ℕ) → htons x < 2 ^ 16
unfolding htons
htons-lt x = omega arith

pub htonl-lt : (x : ℕ) → htonl x < 2 ^ 32
unfolding htonl
htonl-lt x = omega arith

-- A `uint16_t` in memory.
unfoldable pub le16 : ℕ → List ℕ
le16 x = x % 256 ∷ x / 256 % 256 ∷ []
