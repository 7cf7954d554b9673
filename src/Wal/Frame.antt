-- ===== src/Wal/Frame.antt =====
-- The frame layout of internal/wal/wal.go: [u32 length][u32 crc32c][payload], little endian.
use Prim.Native.Nat.{bit_xor}
use rtail.Base.{
  ℕ, zero, suc, ◌+◌, ◌*◌, ◌/◌, ◌%◌, ◌^◌, ◌<◌, ◌≡◌, refl, sym, ap, ◌∙◌, append_assoc, List, [], ◌∷◌,
  ◌++◌, arith, Bytes, ◌==◌, if◌then◌else◌, length,
}

-- "RTWAL\x01"
abbrev pub magic : Bytes
magic = 82 ∷ 84 ∷ 87 ∷ 65 ∷ 76 ∷ 1 ∷ []

abbrev pub max_frame : ℕ
max_frame = 64 * 2 ^ 20

abbrev pub buffer_size : ℕ
buffer_size = 256 * 2 ^ 10

-- `binary.LittleEndian.PutUint32`
unfoldable pub put_u32 : ℕ → Bytes
put_u32 n = n % 256 ∷ n / 256 % 256 ∷ n / 65536 % 256 ∷ n / 16777216 % 256 ∷ []

-- `binary.LittleEndian.Uint32` of four bytes
unfoldable pub get_u32 : ℕ → ℕ → ℕ → ℕ → ℕ
get_u32 a b c d = a + b * 256 + c * 65536 + d * 16777216

pub get_u32-put_u32 :
    (n : ℕ)
    → n < 2 ^ 32
    → get_u32 (n % 256) (n / 256 % 256) (n / 65536 % 256) (n / 16777216 % 256) ≡ n
unfolding get_u32
get_u32-put_u32 n h = omega arith

-- `crc32.Checksum` with the Castagnoli table, bit by bit: the reflected polynomial 0x82F63B78.
crc_bits : ℕ → ℕ → ℕ
crc_bits zero c = c
crc_bits (suc k) c = crc_bits k (if c % 2 == 1 then bit_xor (c / 2) 0x82f6_3b78 else c / 2)

crc_bytes : ℕ → Bytes → ℕ
crc_bytes c [] = c
crc_bytes c (b ∷ bs) = crc_bytes (crc_bits 8 (bit_xor c b)) bs

-- A uint32, so it is taken modulo 2 ^ 32.
unfoldable pub checksum : Bytes → ℕ
unfolding crc_bytes crc_bits
checksum payload = bit_xor (crc_bytes 0xffff_ffff payload) 0xffff_ffff % 2 ^ 32

pub checksum_bound : (payload : Bytes) → checksum payload < 2 ^ 32
unfolding checksum
checksum_bound payload = omega arith

-- `var header [8]byte` of `Append`
unfoldable pub header : Bytes → Bytes
unfolding put_u32
header payload = put_u32 (length payload % 2 ^ 32) ++ put_u32 (checksum payload)

pub header_lem : (p : Bytes) → header p ≡ put_u32 (length p % 2 ^ 32) ++ put_u32 (checksum p)
unfolding header
header_lem p = refl

unfoldable pub frame : Bytes → Bytes
frame payload = header payload ++ payload

unfoldable pub frames : List Bytes → Bytes
frames [] = []
frames (p ∷ ps) = frame p ++ frames ps

-- The bytes of a segment that holds these payloads.
unfoldable pub image : List Bytes → Bytes
image ps = magic ++ frames ps

pub length-frame : (p : Bytes) → length (frame p) ≡ length p + 8
unfolding frame header
length-frame p = omega arith

pub frames-append : (ps qs : List Bytes) → frames (ps ++ qs) ≡ frames ps ++ frames qs
unfolding frames
frames-append [] qs = refl
frames-append (p ∷ ps) qs =
    ap (◌++◌ (frame p)) (frames-append ps qs) ∙ sym (append_assoc (frame p) (frames ps) (frames qs))
