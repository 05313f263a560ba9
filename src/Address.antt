-- ===== src/Address.antt =====
-- include/cesk/cesk_store.h: the layout of the virtual address space. An address is a uint32_t,
-- a number below 2 ^ 32; object addresses come first, then relocated and constant addresses.
-- The macros' constants are `unsigned long`, 64 bits wide, so `~` complements 64 bits.
use adam.Base.{ℕ, Bool, ◌&&◌, not, ◌==◌, ltb, bit_and, bit_or}

abbrev pub const_prefix : ℕ
const_prefix = 0xffffff00

abbrev pub reloc_prefix : ℕ
reloc_prefix = 0xff000000

-- `~CESK_STORE_ADDR_CONST_PREFIX`
abbrev pub const_mask : ℕ
const_mask = 0xffffffff000000ff

-- `CESK_STORE_ADDR_NULL`
abbrev pub addr_null : ℕ
addr_null = 0xffffffff

abbrev pub addr_neg : ℕ
addr_neg = 0xffffff01

abbrev pub addr_zero : ℕ
addr_zero = 0xffffff02

abbrev pub addr_pos : ℕ
addr_pos = 0xffffff04

abbrev pub addr_true : ℕ
addr_true = 0xffffff04

abbrev pub addr_false : ℕ
addr_false = 0xffffff02

-- `CESK_STORE_ADDR_IS_CONST`
unfoldable pub is_const : ℕ → Bool
is_const addr = bit_and addr const_prefix == const_prefix

-- `CESK_STORE_ADDR_CONST_SUFFIX`
unfoldable pub const_suffix : ℕ → ℕ
const_suffix addr = bit_and addr const_mask

-- `CESK_STORE_ADDR_CONST_CONTAIN`, as a condition
unfoldable pub contain : ℕ → ℕ → Bool
unfolding is_const const_suffix
contain addr elem = is_const addr && not (bit_and addr (const_suffix elem) == 0)

-- `CESK_STORE_ADDR_CONST_SET`
unfoldable pub const_set : ℕ → ℕ → ℕ
unfolding const_suffix
const_set addr elem = bit_or addr (const_suffix elem)

-- `CESK_STORE_ADDR_IS_RELOC`
unfoldable pub is_reloc : ℕ → Bool
unfolding is_const
is_reloc addr = (bit_and addr reloc_prefix == reloc_prefix) && not (is_const addr)

-- `CESK_STORE_ADDR_IS_OBJ`
unfoldable pub is_obj : ℕ → Bool
is_obj addr = ltb addr reloc_prefix
