-- ===== src/Static/Unequal.antt =====
-- `cesk_static_table_equal` on one table with itself.
use adam.Base.{
  ℕ, zero, suc, ◌+◌, ◌%◌, ◌^◌, ◌<◌, ◌≡◌, refl, sym, ◌∙◌, ap, subst, true, false, Option, none, some,
  [], ◌∷◌, ltb, arith, inl, inr, bit_or, ==_refl,
}
use mathlib.Core.Option.{some-injective}
use adam.CeskSet.Change
use adam.Static.{Statics}
use adam.Static.Shape.{Tree, Holds, value_at}
use adam.Static.Table.{Table, static_prefix, static_idx, is_default}
use adam.Static.Iterate.{Iter, next, iter_next}
use adam.Static.Compare.{next_set, strip, differs, compare_fields, equal}
use adam.Static.Entries.{Entry, entries, first_from, Proper, Within, entries-Within}
use adam.Static.Leftmost.{Forks, Holds-Splits}
use adam.Static.Next.{next-first_from}
use adam.Static.Visit.{value_of-value_at}

module _ (s : Statics) (count : ℕ) (a : Table) (i p v : ℕ) (small : i + 1 < 2 ^ 32)
    (first : next s count 0 count a.root 0 [] ≡ some (some (i, p)))
    (value : value_at s (some p) ≡ some (some (some v)))
    (last : next s count 0 count a.root (i + 1) [] ≡ some none)
    (changed : is_default (static_idx (bit_or static_prefix i)) (some v) s ≡ some (false, s))
    (same : Change.equal (some v) (some v) s.sets ≡ some (some true, s.sets)) where
  begin : ℕ → Iter
  begin n = record { table = a; begin = n }

  addr : ℕ
  addr = bit_or static_prefix i

  next_first : next_set count (begin 0) s ≡ some ((begin (i + 1), some (addr, v)), s)
  unfolding begin addr next_set iter_next
  next_first =
      let wrap : (i + 1) % 2 ^ 32 ≡ i + 1 = omega (arith, small) in
      ground (arith, first, value_of-value_at s p (some v) value, wrap)

  next_last : next_set count (begin (i + 1)) s ≡ some ((begin (i + 1), none), s)
  unfolding begin next_set iter_next
  next_last = ground (arith, last)

  strip_stays :
      (fuel : ℕ) (it : Iter)
      → strip count (suc fuel) it (some (addr, v)) s ≡ some ((it, some (addr, v)), s)
  unfolding strip addr
  strip_stays fuel it = ground (arith, changed)

  no_difference : differs (addr, v) (addr, v) s ≡ some (false, s)
  unfolding differs
  no_difference = ground (arith, ==_refl addr, same)

  ended :
      (fuel : ℕ) (li ri : Iter) (y : Option (ℕ × ℕ))
      → compare_fields count fuel li none ri y s ≡ some (some (ri, y), s)
  unfolding compare_fields
  ended zero li ri y = refl
  ended (suc fuel) li ri y = refl

  compared :
      (fuel : ℕ) (ri : Iter)
      → compare_fields count (suc fuel) (begin (i + 1)) (some (addr, v)) ri (some (addr, v)) s
        ≡ some (some (ri, some (addr, v)), s)
  unfolding compare_fields addr
  compared fuel ri =
      let up : count + 1 ≡ suc count = omega arith in
      let stays : strip count (count + 1) ri (some (addr, v)) s ≡ some ((ri, some (addr, v)), s) =
        subst (λ n. strip count n ri (some (addr, v)) s ≡ some ((ri, some (addr, v)), s)) (sym up)
          (strip_stays count ri) in
      let end = ended fuel (begin (i + 1)) ri (some (addr, v)) in
      ground (arith, changed, stays, no_difference, next_last, end)

  equal_run : equal count (some a) (some a) s ≡ some (false, s)
  unfolding equal begin
  equal_run =
      let up : count + 1 ≡ suc count = omega arith in
      let go = compared count (begin (i + 1)) in
      let go' : compare_fields count (count + 1) (begin (i + 1)) (some (addr, v)) (begin (i + 1))
            (some (addr, v)) s
          ≡ some (some (begin (i + 1), some (addr, v)), s) =
        subst
          (λ n.
            compare_fields count n (begin (i + 1)) (some (addr, v)) (begin (i + 1)) (some (addr, v))
              s
            ≡ some (some (begin (i + 1), some (addr, v)), s))
          (sym up) go in
      let stays : strip count (count + 1) (begin (i + 1)) (some (addr, v)) s
          ≡ some ((begin (i + 1), some (addr, v)), s) =
        subst
          (λ n.
            strip count n (begin (i + 1)) (some (addr, v)) s
            ≡ some ((begin (i + 1), some (addr, v)), s))
          (sym up) (strip_stays count (begin (i + 1))) in
      ground (arith, ==_refl a.hashcode, next_first, go', stays)

-- A table with one field, whose value is not the default of the field, is not equal to itself. It
-- takes that the root leads to a segment tree without a node that has no field below it, that no
-- node in the store has one node as both children, that there are between 1 and 2 ^ 32 - 1 static
-- fields, that the value is not its default and that the comparison of sets finds the value equal
-- to itself.
pub equal-itself :
    (s : Statics) (count : ℕ) (a : Table) (t : Tree) (i v : ℕ)
    → Forks s
    → Holds s 0 count a.root t
    → Proper t
    → entries 0 count t ≡ (i, some v) ∷ []
    → 0 < count
    → count < 2 ^ 32
    → is_default (static_idx (bit_or static_prefix i)) (some v) s ≡ some (false, s)
    → Change.equal (some v) (some v) s.sets ≡ some (some true, s.sets)
    → equal count (some a) (some a) s ≡ some (false, s)
unfolding first_from
equal-itself s count a t i v forks held proper shape some_field few changed same =
    let within =
      subst (Within 0 count) shape
        (entries-Within 0 count t some_field (Holds-Splits s 0 count a.root t held)) in
    let keep : ltb i 0 ≡ false = ground arith in
    let pass : ltb i (i + 1) ≡ true = ground arith in
    let head : first_from 0 (entries 0 count t) ≡ some (i, some v) =
      ap (first_from 0) shape ∙ rw (first_from, keep) refl in
    let tail : first_from (i + 1) (entries 0 count t) ≡ none =
      ap (first_from (i + 1)) shape ∙ rw (first_from, pass) refl in
    elim (next-first_from s count 0 a.root t forks held proper) [
      | inr (nothing, run) ↦ absurd (ground (arith, head, nothing))
      | inl (e, p, found, run, value) ↦
          let one : e ≡ (i, some v) = some-injective e (i, some v) (sym found ∙ head) in
          elim (next-first_from s count (i + 1) a.root t forks held proper) [
            | inl (e', p', found', _, _) ↦ absurd (ground (arith, tail, found'))
            | inr (nothing, run') ↦
                equal_run s count a i p v (omega (arith, within.1, few))
                  (run ∙ ap (λ (x : Entry). some (some (x.0, p))) one)
                  (value ∙ ap (λ (x : Entry). some (some x.1)) one) run' changed same
          ]
    ]
