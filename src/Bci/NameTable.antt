-- ===== src/Bci/NameTable.antt =====
-- src/bci/bci_nametab.c: the table of built-in classes, by their paths. A path is the address of its
-- pooled string; `none` stands for NULL and for the result -1. `wrap_at` is where the new wrapper is;
-- `room` is whether the node can be allocated.
use mathlib.Core.Option
use adam.Base.{
  ℕ, ◌*◌, ◌%◌, ◌^◌, ◌≡◌, refl, ◌∙◌, ap, Bool, true, false, ◌&&◌, Option, some, [], ◌==◌,
  if◌then◌else◌, arith, Bool-cases, inl, inr,
}
use adam.Base.Chains.{Chains, first_where, link, first_where-link}
use adam.AllocTable.{mh_multiply}
use adam.Object.{Wrap, BciClass}

pub record Node : Type 0 where
  pub clspath : ℕ
  pub def : Wrap

abbrev pub NameTable : Type 0
NameTable = Chains Node

-- `bci_nametab_init`
abbrev pub init : NameTable
init _ = []

unfoldable pub slot_of : ℕ → ℕ
slot_of path = let a = path % 2 ^ 32 in a * a % 2 ^ 32 * mh_multiply % 2 ^ 64 % 2 ^ 32 % 100007

unfoldable pub find : NameTable → ℕ → Option Node
unfolding first_where slot_of
find table path = first_where (λ n. n.clspath == path) (table (slot_of path))

unfoldable pub register_class : Bool → ℕ → ℕ → BciClass → NameTable → Bool × NameTable
unfolding link slot_of
register_class room wrap_at path def table =
    if room
    then (
      true,
      link (slot_of path)
          (record { clspath = path; def = record { at = wrap_at; path = path; class = def } })
          table,
    )
    else (false, table)

unfoldable pub get_class : NameTable → ℕ → Option Wrap
unfolding find
get_class table path = Option.map (λ n. n.def) (find table path)

abbrev wrapper : ℕ → ℕ → BciClass → Wrap
wrapper wrap_at path def = record { at = wrap_at; path = path; class = def }

meets : (path q : ℕ) → ((slot_of q == slot_of path) && (path == q)) ≡ (q == path)
meets path q = elim (Bool-cases (q == path)) [
  | inl y ↦ let same : q ≡ path = ground (arith, y) in rw same (ground arith)
  | inr n ↦ ground (arith, n)
]

map-if :
    (c : Bool) (x : Node) (o : Option Node)
    → Option.map (λ n. n.def) (if c then some x else o)
      ≡ (if c then some x.def else Option.map (λ n. n.def) o)
map-if true x o = refl
map-if false x o = refl

-- After a class is registered its path leads to it, also if the path led to another class before, and
-- every other path leads where it led.
get_class-register_class :
    (wrap_at path q : ℕ) (def : BciClass) (table : NameTable)
    → get_class (register_class true wrap_at path def table).1 q
      ≡ (if q == path then some (wrapper wrap_at path def) else get_class table q)
unfolding get_class register_class find
get_class-register_class wrap_at path q def table =
    let new : Node = record { clspath = path; def = wrapper wrap_at path def } in
    ap (Option.map (λ n. n.def)) (
      first_where-link (λ n. n.clspath == q) (slot_of path) (slot_of q) new table
      ∙ ap (λ (c : Bool). if c then some new else find table q) (meets path q))
    ∙ map-if (q == path) new (find table q)
