-- ===== src/Static/Query.antt =====
-- src/cesk/cesk_static.c: `cesk_static_field_query`, the register of a static field by its name, which
-- also sets the initial value of the field. The descriptions of the fields stand in a store at the
-- addresses that the member dictionary gives. `atoi`, and `atof` cut to an integer, are parameters.
use adam.Base.{
  ℕ, zero, suc, true, false, Option, none, some, ◌==◌, ltb, if◌then◌else◌, bit_and, bit_or,
}
use adam.Base.Int.{ℤ, pos, negsuc}
use adam.Base.State.{◌>>=◌, ◌>>◌, pure, get_state, deref}
use adam.Address.{addr_null, addr_neg, addr_zero, addr_pos}
use adam.Sexp.{Pooled, same_address}
use adam.DalvikType.{
  void, int, long, short, wide, float, double, char, byte, boolean, DalvikType, null, atom, object,
  array, Addresses,
}
use adam.Dalvik.MemberDict.{Name, Dict, get_field}
use adam.Static.{Statics, M, modify_state}
use adam.Static.Table.{static_prefix}

-- The members of `dalvik_field_t` that the function reads; `offset` as the uint32_t it is taken for.
pub record Field : Type 0 where
  pub attrs : ℕ
  pub offset : ℕ
  pub kind : DalvikType
  pub default_value : Option Pooled

abbrev pub attrs_static : ℕ
attrs_static = 0x40

-- The label CONST_VALUE.
unfoldable pub sign_addr : ℤ → ℕ
sign_addr (pos zero) = addr_zero
sign_addr (pos (suc n)) = addr_pos
sign_addr (negsuc n) = addr_neg

-- The switch over the type of the field; a type that is not supported leaves CESK_STORE_ADDR_NULL.
unfoldable pub literal_addr : (Pooled → ℤ) → (Pooled → ℤ) → Pooled → DalvikType → Pooled → Option ℕ
unfolding sign_addr same_address
literal_addr atoi atof token_true null text = none
literal_addr atoi atof token_true (object p) text = some addr_zero
literal_addr atoi atof token_true (array t) text = some (sign_addr (pos 0))
literal_addr atoi atof token_true (atom int) text = some (sign_addr (atoi text))
literal_addr atoi atof token_true (atom long) text = some (sign_addr (atoi text))
literal_addr atoi atof token_true (atom byte) text = some (sign_addr (atoi text))
literal_addr atoi atof token_true (atom short) text = some (sign_addr (atoi text))
literal_addr atoi atof token_true (atom boolean) text =
    some (sign_addr (pos (if same_address token_true text then 1 else 0)))
literal_addr atoi atof token_true (atom float) text = some (sign_addr (atof text))
literal_addr atoi atof token_true (atom double) text = some (sign_addr (atof text))
literal_addr atoi atof token_true (atom void) text = some addr_null
literal_addr atoi atof token_true (atom wide) text = some addr_null
literal_addr atoi atof token_true (atom char) text = some addr_null

-- `none`: the type is NULL.
unfoldable pub initial_addr : (Pooled → ℤ) → (Pooled → ℤ) → Pooled → Field → Option ℕ
unfolding literal_addr
initial_addr atoi atof token_true f = elim f.default_value [
  | none ↦ some addr_zero
  | some text ↦ literal_addr atoi atof token_true f.kind text
]

-- `_cesk_static_default_value`, which is allocated at the first call.
unfoldable pub defaults : Statics → ℕ → ℕ
defaults s = elim s.default_value [ none ↦ (λ i. addr_null) | some f ↦ f ]

abbrev pub with_defaults : (ℕ → ℕ) → Statics → Statics
with_defaults f s = record s { default_value = some f }

unfoldable pub query_field : ℕ → (Pooled → ℤ) → (Pooled → ℤ) → Pooled → Field → M ℕ
unfolding initial_addr defaults
query_field count atoi atof token_true f = elim (bit_and f.attrs attrs_static == 0) [
  | true ↦ pure addr_null
  | false ↦ elim (ltb f.offset count) [
    | false ↦ pure addr_null
    | true ↦ do
      s ← get_state
      elim (defaults s f.offset == addr_null) [
        | false ↦ pure (bit_or static_prefix f.offset)
        | true ↦ do
          addr ← deref (initial_addr atoi atof token_true f)
          modify_state (with_defaults (λ i. if i == f.offset then addr else defaults s i))
          pure (bit_or static_prefix f.offset)
      ]
  ]
]

-- `cesk_static_field_query`
unfoldable pub field_query :
    ℕ → (Pooled → ℤ) → (Pooled → ℤ) → Pooled → Addresses → Dict → (ℕ → Field) → Name → Name → M ℕ
unfolding defaults get_field query_field
field_query count atoi atof token_true mem dict fields path name = do
  s ← get_state
  modify_state (with_defaults (defaults s))
  elim (get_field mem dict path name) [
    | none ↦ pure addr_null
    | some at ↦ query_field count atoi atof token_true (fields at)
  ]
