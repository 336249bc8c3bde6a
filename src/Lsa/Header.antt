-- ===== src/Lsa/Header.antt =====
-- rd/flooding_engine.h: the macros that read and write the fields of `version_ttl_type`, and the
-- constants of rd/constants.h for them. A right shift of a signed int is arithmetic; the mask that
-- follows keeps only bits that a logical shift brings down too.
pub mod Fields
use p.Prelude.{ℕ, bit_and, bit_or, shl32, shr}

abbrev pub type_lsa : ℕ
type_lsa = 0x00000000

abbrev pub type_ack : ℕ
type_ack = 0x00000001

abbrev pub type_down : ℕ
type_down = 0x00000010

abbrev pub default_ttl : ℕ
default_ttl = 0x20

unfoldable pub get_version : ℕ → ℕ
get_version v = bit_and (shr v 24) 0xff

unfoldable pub get_ttl : ℕ → ℕ
get_ttl v = bit_and (shr v 16) 0xff

unfoldable pub get_type : ℕ → ℕ
get_type v = bit_and v 0xffff

unfoldable pub set_version : ℕ → ℕ → ℕ
set_version line1 version = bit_or (bit_and line1 0x00ffffff) (shl32 version 24)

unfoldable pub set_ttl : ℕ → ℕ → ℕ
set_ttl line1 ttl = bit_or (bit_and line1 0xff00ffff) (shl32 ttl 16)

unfoldable pub set_type : ℕ → ℕ → ℕ
set_type line1 type = bit_or (bit_and line1 0xffff0000) type
