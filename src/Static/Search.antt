-- ===== src/Static/Search.antt =====
-- `_cesk_static_tree_node_find`: the loop ends, and gives the value of the map that the tree is.
use adam.Base.{
  ℕ, zero, suc, ◌-◌, ◌≤◌, ◌≡◌, refl, sym, ◌∙◌, ap, subst, false, Option, none, some, ltb, arith,
  Bool-cases, inl, inr,
}
use adam.CeskSet.Methods.{Handle}
use adam.Static.{leaf, Statics, middle, find, prepare_to_write}
use adam.Static.Shape.{
  Tree, bare, field, branch, body_at, Holds, Fresh, Fits, lookup, value_at, read, children-body,
}
use adam.Static.Ready.{value_at-leaf}
use adam.Static.Path.{prepare_to_write-Keeps}

module _ (s : Statics) (idx : ℕ) where
  abbrev Finds : ℕ → ℕ → ℕ → Option ℕ → Tree → Type 0
  Finds fuel l r p t =
      (q : Option ℕ) × (find s fuel l r p idx ≡ some q) × (value_at s q ≡ some (lookup l r t idx))

  find-bare : (fuel l r : ℕ) → Finds fuel l r none bare
  unfolding find lookup value_at
  find-bare zero l r = (none, refl, refl)
  find-bare (suc fuel) l r = (none, refl, refl)

  find-field :
      (fuel l r p : ℕ) (v : Handle)
      → ltb 1 (r - l) ≡ false
      → body_at s p ≡ some (leaf v)
      → Finds fuel l r (some p) (field v)
  unfolding find lookup
  find-field zero l r p v narrow at = (some p, refl, value_at-leaf s p v at)
  find-field (suc fuel) l r p v narrow at = (some p, ground (arith, narrow), value_at-leaf s p v at)

  find-Holds :
      (fuel l r : ℕ) (p : Option ℕ) (t : Tree) → Holds s l r p t → r - l ≤ fuel → Finds fuel l r p t
  unfolding find lookup
  find-Holds fuel l r p bare h enough =
      subst (λ x. Finds fuel l r x bare) (sym h) (find-bare fuel l r)
  find-Holds fuel l r p (field v) (narrow, k, _) enough =
      subst (λ x. Finds fuel l r x (field v)) (sym k.pointer)
        (find-field fuel l r k.target v narrow k.body)
  find-Holds zero l r p (branch t u) h enough = absurd (ground (arith, h.0, enough))
  find-Holds (suc fuel) l r p (branch t u) (wide, c, d, k, left, right) enough =
      let kids = children-body s k.target c d k.body in
      subst (λ x. Finds (suc fuel) l r x (branch t u)) (sym k.pointer)
        (elim (Bool-cases (ltb idx (middle l r))) [
          | inl below ↦
              let (q, run, value) =
                find-Holds fuel l (middle l r) c t left (ground (arith, wide, enough)) in
              (q, ground (arith, wide, kids, below, run), value ∙ ap some (rw (lookup, below) refl))
          | inr above ↦
              let (q, run, value) =
                find-Holds fuel (middle l r) r d u right (ground (arith, wide, enough)) in
              (q, ground (arith, wide, kids, above, run), value ∙ ap some (rw (lookup, above) refl))
        ])

-- What a table reads at an index is what the map says that its tree stands for.
pub read-lookup :
    (s : Statics) (count idx : ℕ) (root : Option ℕ) (t : Tree)
    → Holds s 0 count root t
    → read s count root idx ≡ some (lookup 0 count t idx)
unfolding read
read-lookup s count idx root t h =
    let (q, run, value) = find-Holds s idx count 0 count root t h (omega arith) in
    ground (arith, run, value)

-- Of two tables whose roots lead to segment trees, and which may share nodes, one is made ready for
-- a write at an index. This ends, the other table then reads at every index what it did, and so
-- does the table itself through its new root. It takes that no node is in use that is still to be
-- allocated, and that the counters fit 30 bits.
pub prepare_to_write-reads :
    (s : Statics) (count idx : ℕ) (root other : Option ℕ) (t u : Tree)
    → Fresh s
    → Fits s
    → Holds s 0 count root t
    → Holds s 0 count other u
    → (root' target : Option ℕ) × (after : Statics) × (prepare_to_write count root idx s
        ≡ some ((root', target), after))
      × ((j : ℕ) → read after count root' j ≡ read s count root j)
      × ((j : ℕ) → read after count other j ≡ read s count other j)
prepare_to_write-reads s count idx root other t u free fits h k =
    let (root', target, after, run, top, _, keeps) =
      prepare_to_write-Keeps s count idx root t free fits h in
    let held = keeps.holds 0 count other u k in
    (
      root',
      target,
      after,
      run,
      λ j. read-lookup after count j root' t top ∙ sym (read-lookup s count j root t h),
      λ j. read-lookup after count j other u held ∙ sym (read-lookup s count j other u k),
    )
