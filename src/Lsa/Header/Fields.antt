-- ===== src/Lsa/Header/Fields.antt =====
-- rd/flooding_engine.h: the macros as arithmetic on the fields of the word.
use Prim.Native.Nat.{◌-◌}
use p.Prelude.{ℕ, ◌+◌, ◌*◌, ◌/◌, ◌%◌, ◌^◌, ◌<◌, ◌≡◌, ◌∙◌, arith, bit_and, shl32}
use p.Prelude.Bits.{
  bit_and_at, bit_or_at, bit_and_zeros, bit_and_ones, bit_or_zeros, zeros_bit_or, bit_or_ones,
  bit_or_self,
}
use p.Lsa.Header.{get_version, get_ttl, get_type, set_ttl, set_type, type_ack}

-- Masks of whole fields, on a word.
mask_8 : (a : ℕ) → a < 2 ^ 32 → bit_and a 0xff ≡ a % 2 ^ 8
mask_8 a h =
    let q = a / 2 ^ 8 in
    let r = a % 2 ^ 8 in
    bit_and_at 8 q r 0 0xff a 0xff (omega arith) (omega arith) (omega arith) (omega arith)
    ∙ omega (arith, bit_and_zeros 32 q (omega arith), bit_and_ones 8 r (omega arith))

mask_16 : (a : ℕ) → a < 2 ^ 32 → bit_and a 0xffff ≡ a % 2 ^ 16
mask_16 a h =
    let q = a / 2 ^ 16 in
    let r = a % 2 ^ 16 in
    bit_and_at 16 q r 0 0xffff a 0xffff (omega arith) (omega arith) (omega arith) (omega arith)
    ∙ omega (arith, bit_and_zeros 32 q (omega arith), bit_and_ones 16 r (omega arith))

mask_24 : (a : ℕ) → a < 2 ^ 32 → bit_and a 0x00ffffff ≡ a % 2 ^ 24
mask_24 a h =
    let q = a / 2 ^ 24 in
    let r = a % 2 ^ 24 in
    bit_and_at 24 q r 0 0xffffff a 0xffffff (omega arith) (omega arith) (omega arith) (omega arith)
    ∙ omega (arith, bit_and_zeros 32 q (omega arith), bit_and_ones 24 r (omega arith))

mask_high : (a : ℕ) → a < 2 ^ 32 → bit_and a 0xffff0000 ≡ a / 2 ^ 16 * 2 ^ 16
mask_high a h =
    let q = a / 2 ^ 16 in
    let r = a % 2 ^ 16 in
    bit_and_at 16 q r 0xffff 0 a 0xffff0000 (omega arith) (omega arith) (omega arith) (omega arith)
    ∙ omega (arith, bit_and_zeros 16 r (omega arith), bit_and_ones 16 q (omega arith))

mask_high_byte : (a : ℕ) → a < 2 ^ 16 → bit_and a 0xff00 ≡ a / 2 ^ 8 * 2 ^ 8
mask_high_byte a h =
    let q = a / 2 ^ 8 in
    let r = a % 2 ^ 8 in
    bit_and_at 8 q r 0xff 0 a 0xff00 (omega arith) (omega arith) (omega arith) (omega arith)
    ∙ omega (arith, bit_and_zeros 8 r (omega arith), bit_and_ones 8 q (omega arith))

mask_not_ttl : (a : ℕ) → a < 2 ^ 32 → bit_and a 0xff00ffff ≡ a / 2 ^ 24 * 2 ^ 24 + a % 2 ^ 16
mask_not_ttl a h =
    let q = a / 2 ^ 16 in
    let r = a % 2 ^ 16 in
    bit_and_at 16 q r 0xff00 0xffff a 0xff00ffff (omega arith) (omega arith) (omega arith)
      (omega arith)
    ∙ omega (arith, mask_high_byte q (omega arith), bit_and_ones 16 r (omega arith))

pub get_version_lem : (v : ℕ) → v < 2 ^ 32 → get_version v ≡ v / 2 ^ 24
unfolding get_version
get_version_lem v h = omega (arith, mask_8 (v / 2 ^ 24) (omega arith))

pub get_ttl_lem : (v : ℕ) → v < 2 ^ 32 → get_ttl v ≡ v / 2 ^ 16 % 2 ^ 8
unfolding get_ttl
get_ttl_lem v h = mask_8 (v / 2 ^ 16) (omega arith)

pub get_type_lem : (v : ℕ) → v < 2 ^ 32 → get_type v ≡ v % 2 ^ 16
unfolding get_type
get_type_lem v h = mask_16 v h

-- The new time to live is put between the version and the type, which stay.
pub set_ttl_lem :
    (v t : ℕ) → v < 2 ^ 32 → t < 2 ^ 8 → set_ttl v t ≡ v / 2 ^ 24 * 2 ^ 24 + t * 2 ^ 16 + v % 2 ^ 16
unfolding set_ttl
set_ttl_lem v t h ht =
    let q = v / 2 ^ 24 in
    let r = v % 2 ^ 16 in
    let upper =
      bit_or_at 8 q 0 0 t (q * 2 ^ 8) t (omega arith) (omega arith) (omega arith) (omega arith) in
    rw (mask_not_ttl v h) (
      bit_or_at 16 (q * 2 ^ 8) r t 0 (q * 2 ^ 24 + r) (shl32 t 16) (omega arith) (omega arith)
        (omega arith) (omega arith)
      ∙ omega (
        arith,
        upper,
        bit_or_zeros 8 q (omega arith),
        zeros_bit_or t,
        bit_or_zeros 16 r (omega arith),
      ))

-- A time to live of -1 has all its bits set, so it overwrites the version too.
pub set_ttl_minus_one : (v : ℕ) → v < 2 ^ 32 → set_ttl v (2 ^ 32 - 1) ≡ 0xffff * 2 ^ 16 + v % 2 ^ 16
unfolding set_ttl
set_ttl_minus_one v h =
    let q = v / 2 ^ 24 in
    let r = v % 2 ^ 16 in
    rw (mask_not_ttl v h) (
      bit_or_at 16 (q * 2 ^ 8) r 0xffff 0 (q * 2 ^ 24 + r) (shl32 (2 ^ 32 - 1) 16) (omega arith)
        (omega arith) (omega arith) (omega arith)
      ∙ omega (arith, bit_or_ones 16 (q * 2 ^ 8) (omega arith), bit_or_zeros 16 r (omega arith)))

pub set_type_lem : (v t : ℕ) → v < 2 ^ 32 → t < 2 ^ 16 → set_type v t ≡ v / 2 ^ 16 * 2 ^ 16 + t
unfolding set_type
set_type_lem v t h ht =
    let q = v / 2 ^ 16 in
    rw (mask_high v h) (
      bit_or_at 16 q 0 0 t (q * 2 ^ 16) t (omega arith) (omega arith) (omega arith) (omega arith)
      ∙ omega (arith, bit_or_zeros 16 q (omega arith), zeros_bit_or t))

-- Writing the whole old word back by `SET_TYPE`, after the ACK type was set, restores the word.
pub set_type-set_type : (v : ℕ) → v < 2 ^ 32 → set_type (set_type v type_ack) v ≡ v
set_type-set_type v h =
    let w = set_type v type_ack in
    let q = v / 2 ^ 16 in
    let r = v % 2 ^ 16 in
    rw (set_type_lem v type_ack h (omega arith)) (
      unfold set_type in
      rw (mask_high (q * 2 ^ 16 + 1) (omega arith)) (
        bit_or_at 16 q 0 q r _ v (omega arith) (omega arith) (omega arith) (omega arith)
        ∙ omega (arith, bit_or_self 16 q (omega arith), zeros_bit_or r)))

-- Writing a time to live of one byte changes it and no other field.
pub set_ttl_fields :
    (v t : ℕ)
    → v < 2 ^ 32
    → t < 2 ^ 8
    → (get_ttl (set_ttl v t) ≡ t)
      × (get_version (set_ttl v t) ≡ get_version v)
      × (get_type (set_ttl v t) ≡ get_type v)
set_ttl_fields v t h ht =
    let w = v / 2 ^ 24 * 2 ^ 24 + t * 2 ^ 16 + v % 2 ^ 16 in
    let small : w < 2 ^ 32 = omega arith in
    rw (set_ttl_lem v t h ht) (
      omega (arith, get_ttl_lem w small),
      omega (arith, get_version_lem w small, get_version_lem v h),
      omega (arith, get_type_lem w small, get_type_lem v h),
    )

-- Writing a type of two bytes changes it and no other field.
pub set_type_fields :
    (v t : ℕ)
    → v < 2 ^ 32
    → t < 2 ^ 16
    → (get_type (set_type v t) ≡ t)
      × (get_ttl (set_type v t) ≡ get_ttl v)
      × (get_version (set_type v t) ≡ get_version v)
set_type_fields v t h ht =
    let w = v / 2 ^ 16 * 2 ^ 16 + t in
    let small : w < 2 ^ 32 = omega arith in
    rw (set_type_lem v t h ht) (
      omega (arith, get_type_lem w small),
      omega (arith, get_ttl_lem w small, get_ttl_lem v h),
      omega (arith, get_version_lem w small, get_version_lem v h),
    )
