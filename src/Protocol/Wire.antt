-- ===== src/Protocol/Wire.antt =====
-- The bytes of a frame: put_u16 to put_i32, Reader and crc32 of runtime/src/tp/rank_protocol.cpp. A
-- Reader is the list of the bytes that it has left, from `data + at` to `data + size`.
use Prim.Native.Nat.{bit_and, bit_xor}
use kimi_k3_neuron_tp3_dgxsp.Prelude.{
  ℕ, zero, suc, ◌+◌, ◌-◌, ◌*◌, ◌/◌, ◌%◌, ◌^◌, Option, none, some, List, [], ◌∷◌, ◌++◌,
  if◌then◌else◌, ltb, leb, length, take, drop,
}
use kimi_k3_neuron_tp3_dgxsp.Prelude.Int.{ℤ, pos, negsuc}
use kimi_k3_neuron_tp3_dgxsp.Protocol.Message.{Byte}

-- The n low bytes of a number, the lowest first: `v >> (8 * i)` for i from 0.
unfoldable pub little_endian : ℕ → ℕ → List Byte
little_endian zero v = []
little_endian (suc n) v = v % 256 ∷ little_endian n (v / 256)

unfoldable pub put_u16 : ℕ → List Byte
unfolding little_endian
put_u16 v = little_endian 2 v

unfoldable pub put_u32 : ℕ → List Byte
unfolding little_endian
put_u32 v = little_endian 4 v

unfoldable pub put_u64 : ℕ → List Byte
unfolding little_endian
put_u64 v = little_endian 8 v

-- `static_cast<std::uint32_t>` of an int.
abbrev pub to_u32 : ℤ → ℕ
to_u32 (pos n) = n % 2 ^ 32
to_u32 (negsuc n) = 2 ^ 32 - 1 - n % 2 ^ 32

unfoldable pub put_i32 : ℤ → List Byte
unfolding put_u32 little_endian
put_i32 v = put_u32 (to_u32 v)

unfoldable pub put_i32s : List ℤ → List Byte
unfolding put_i32 put_u32 little_endian
put_i32s [] = []
put_i32s (v ∷ vs) = put_i32 v ++ put_i32s vs

-- `out` after the pieces have been put at its end, one after another.
abbrev pub joined : List (List Byte) → List Byte
joined [] = []
joined (p ∷ ps) = p ++ joined ps

-- What a read takes from the bytes left, and those that it leaves; it fails where there are too few.
abbrev pub Read : Type 0 → Type 0
Read A = List Byte → Option (A × List Byte)

infixl 5 ◌>>=◌
abbrev pub ◌>>=◌ : {A B : Type 0} → Read A → (A → Read B) → Read B
r >>= k = λ bs. elim (r bs) [ none ↦ none | some (a, rest) ↦ k a rest ]

abbrev pub returns : {A : Type 0} → A → Read A
returns a = λ bs. some (a, bs)

unfoldable pub next : Read Byte
next [] = none
next (b ∷ bs) = some (b, bs)

-- `data[at + i] << (8 * i)` for i below n, together; bytes share no digits, so `|` is the sum.
unfoldable pub unsigned : ℕ → Read ℕ
unfolding next
unsigned zero = returns 0
unsigned (suc n) = do b ← next; high ← unsigned n; returns (b + 256 * high)

unfoldable pub u16 : Read ℕ
unfolding unsigned
u16 = unsigned 2

unfoldable pub u32 : Read ℕ
unfolding unsigned
u32 = unsigned 4

unfoldable pub u64 : Read ℕ
unfolding unsigned
u64 = unsigned 8

abbrev pub of_u32 : ℕ → ℤ
of_u32 v = if leb v 0x7fff_ffff then pos v else negsuc (0xffff_ffff - v)

unfoldable pub i32 : Read ℤ
unfolding u32 unsigned
i32 = u32 >>= λ v. returns (of_u32 v)

unfoldable pub bytes : ℕ → Read (List Byte)
bytes n bs = if ltb (length bs) n then none else some (take n bs, drop n bs)

-- `for (i = 0; i < n; ++i) r.i32(&values[i])`.
unfoldable pub i32s : ℕ → Read (List ℤ)
unfolding i32 u32 unsigned
i32s zero = returns []
i32s (suc n) = do v ← i32; vs ← i32s n; returns (v ∷ vs)

-- `for (bit = 0; bit < 8; ++bit)`, with the rounds left; `0U - (crc & 1U)` is all ones or zero.
unfoldable pub crc_bits : ℕ → ℕ → ℕ
crc_bits zero crc = crc
crc_bits (suc rounds) crc =
    crc_bits rounds (bit_xor (crc / 2) (bit_and 0xedb8_8320 ((2 ^ 32 - bit_and crc 1) % 2 ^ 32)))

unfoldable pub crc_from : ℕ → List Byte → ℕ
unfolding crc_bits
crc_from crc [] = crc
crc_from crc (b ∷ bs) = crc_from (crc_bits 8 (bit_xor crc b)) bs

unfoldable pub crc32 : List Byte → ℕ
unfolding crc_from crc_bits
crc32 bs = 0xffff_ffff - crc_from 0xffff_ffff bs
