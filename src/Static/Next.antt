-- ===== src/Static/Next.antt =====
-- `_cesk_static_tree_next`: both loops end, and give the first field from an index on.
use adam.Base.{
  ℕ, zero, suc, ◌-◌, ◌≤◌, ◌≡◌, ◌⊎◌, refl, sym, ◌∙◌, ap, subst, true, false, Option, none, some,
  List, [], ◌∷◌, ltb, arith, Bool-cases, inl, inr,
}
use adam.Static.{inner, Statics, middle}
use adam.Static.Shape.{Tree, bare, field, branch, body_at, Holds, value_at, children-body}
use adam.Static.Iterate.{Step, step, back, arrive, next}
use adam.Static.Entries.{
  Entry, entries, Within, first_from, Proper, Splits, entries-Within, first_from-append,
  first_from-passed, first_from-head,
}
use adam.Static.Leftmost.{
  Forks, Holds-Splits, no_fuel, half_fuel, bare-null, is-bare, leftmost-Holds,
}
use adam.Static.Backtrack.{
  first_from-bare, Outcome, arrive-Outcome, back_null, back_same, back_found, apart,
}

module _ (s : Statics) (l r p : ℕ) (t u : Tree) (start : ℕ) (path : List Step) (forks : Forks s)
    (wide : ltb 1 (r - l) ≡ true) where
  from_left :
      (c d : Option ℕ)
      → body_at s p ≡ some (inner c d)
      → ltb start (middle l r) ≡ true
      → Holds s (middle l r) r d u
      → Proper u
      → (result : Option (Option (ℕ × ℕ)))
      → Outcome s l (middle l r) t start result (back s (step l r p ∷ path) c)
      → Outcome s l r (branch t u) start result (back s path (some p))
  unfolding entries
  from_left c d at before right proper result (inl (e, q, first, run, value)) = inl (
    e,
    q,
    first_from-append start (entries l (middle l r) t) (entries (middle l r) r u) ∙ rw first refl,
    run,
    value,
  )
  from_left c none at before right proper result (inr (first, run)) =
      let empty = is-bare u (bare-null s (middle l r) r u right) in
      let append = first_from-append start (entries l (middle l r) t) (entries (middle l r) r u) in
      inr (
        append
            ∙ rw first (
                ap (λ x. first_from start (entries (middle l r) r x)) empty
                ∙ first_from-bare start (middle l r) r),
        run ∙ back_null s l r p path c c at,
      )
  from_left c (some q) at before right proper result (inr (first, run)) =
      let (e, es, x, shape, found, value) =
        leftmost-Holds s (r - l) (middle l r) r q u right proper (omega arith) in
      let append = first_from-append start (entries l (middle l r) t) (entries (middle l r) r u) in
      let bounds =
        entries-Within (middle l r) r u (ground (arith, wide))
          (Holds-Splits s (middle l r) r (some q) u right) in
      inl (
        e,
        x,
        append
            ∙ rw first (
                ap (first_from start) shape
                ∙ first_from-head (middle l r) r start e es
                    (subst (Within (middle l r) r) shape bounds) (ground (arith, before))),
        run ∙ back_found s l r p q path c (e.0, x) at (apart s p q c forks at) found,
        value,
      )

  passed :
      ltb start (middle l r) ≡ false
      → Splits l (middle l r) t
      → first_from start (entries l r (branch t u)) ≡ first_from start (entries (middle l r) r u)
  unfolding entries
  passed after splits =
      first_from-append start (entries l (middle l r) t) (entries (middle l r) r u)
      ∙ rw
          (first_from-passed l (middle l r) start (entries l (middle l r) t)
            (entries-Within l (middle l r) t (ground (arith, wide)) splits) (ground (arith, after)))
          refl

  from_right :
      (c d : Option ℕ)
      → body_at s p ≡ some (inner c d)
      → ltb start (middle l r) ≡ false
      → Splits l (middle l r) t
      → (result : Option (Option (ℕ × ℕ)))
      → Outcome s (middle l r) r u start result (back s (step l r p ∷ path) d)
      → Outcome s l r (branch t u) start result (back s path (some p))
  from_right c d at after splits result (inl (e, q, first, run, value)) =
      inl (e, q, passed after splits ∙ first, run, value)
  from_right c none at after splits result (inr (first, run)) =
      inr (passed after splits ∙ first, run ∙ back_null s l r p path c none at)
  from_right c (some q) at after splits result (inr (first, run)) =
      inr (passed after splits ∙ first, run ∙ back_same s l r p q path c at)

next-bare :
    (s : Statics) (fuel l r start : ℕ) (path : List Step)
    → Outcome s l r bare start (next s fuel l r none start path) (back s path none)
unfolding next entries first_from
next-bare s zero l r start path = inr (refl, refl)
next-bare s (suc fuel) l r start path = inr (refl, refl)

next-field :
    (s : Statics) (fuel l r p start : ℕ) (path : List Step)
    → ltb 1 (r - l) ≡ false
    → next s fuel l r (some p) start path ≡ arrive s l p start path
unfolding next
next-field s zero l r p start path narrow = refl
next-field s (suc fuel) l r p start path narrow = ground (arith, narrow)

next-step :
    (s : Statics) (fuel l r p start : ℕ) (path : List Step) (c d : Option ℕ)
    → ltb 1 (r - l) ≡ true
    → body_at s p ≡ some (inner c d)
    → next s (suc fuel) l r (some p) start path ≡ (elim (ltb start (middle l r)) [
      | true ↦ next s fuel l (middle l r) c start (step l r p ∷ path)
      | false ↦ next s fuel (middle l r) r d start (step l r p ∷ path)
    ])
unfolding next
next-step s fuel l r p start path c d wide at = ground (arith, wide, children-body s p c d at)

next-Outcome :
    (s : Statics) (fuel l r : ℕ) (p : Option ℕ) (t : Tree) (start : ℕ) (path : List Step)
    → Forks s
    → Holds s l r p t
    → Proper t
    → r - l ≤ fuel
    → l ≤ start
    → Outcome s l r t start (next s fuel l r p start path) (back s path p)
next-Outcome s fuel l r p bare start path forks h proper enough low =
    subst (λ x. Outcome s l r bare start (next s fuel l r x start path) (back s path x)) (sym h)
      (next-bare s fuel l r start path)
next-Outcome s fuel l r p (field v) start path forks (narrow, k, _) proper enough low =
    subst (λ x. Outcome s l r (field v) start (next s fuel l r x start path) (back s path x))
      (sym k.pointer)
      (subst (λ x. Outcome s l r (field v) start x (back s path (some k.target)))
        (sym (next-field s fuel l r k.target start path narrow))
        (arrive-Outcome s l r k.target v start path k.body low))
next-Outcome s zero l r p (branch t u) start path forks h proper enough low =
    no_fuel l r h.0 enough
      (Outcome s l r (branch t u) start (next s zero l r p start path) (back s path p))
next-Outcome s (suc fuel) l r p (branch t u) start path forks whole (pt, pu, one) enough low =
    let (wide, c, d, k, left, right) = whole in
    let (less, more) = half_fuel l r fuel wide enough in
    let splits = Holds-Splits s l (middle l r) c t left in
    let q = k.target in
    let go = next-step s fuel l r q start path c d wide k.body in
    subst
      (λ x. Outcome s l r (branch t u) start (next s (suc fuel) l r x start path) (back s path x))
      (sym k.pointer)
      (subst (λ x. Outcome s l r (branch t u) start x (back s path (some q))) (sym go)
        (elim (Bool-cases (ltb start (middle l r))) [
          | inl before ↦ rw before (
              from_left s l r q t u start path forks wide c d k.body before right pu
                (next s fuel l (middle l r) c start (step l r q ∷ path))
                (next-Outcome s fuel l (middle l r) c t start (step l r q ∷ path) forks left pt less
                  low))
          | inr after ↦ rw after (
              from_right s l r q t u start path forks wide c d k.body after splits
                (next s fuel (middle l r) r d start (step l r q ∷ path))
                (next-Outcome s fuel (middle l r) r d u start (step l r q ∷ path) forks right pu
                  more (ground (arith, after))))
        ]))

-- The search for the next field ends, and gives the field of the smallest index from `start` on,
-- with its value, or nothing where the table has no such field. It takes that the root leads to a
-- segment tree without a node that has no field below it and that no node in the store has one node
-- as both children.
pub next-first_from :
    (s : Statics) (count start : ℕ) (root : Option ℕ) (t : Tree)
    → Forks s
    → Holds s 0 count root t
    → Proper t
    → ((e : Entry) × (q : ℕ) × (first_from start (entries 0 count t) ≡ some e)
        × (next s count 0 count root start [] ≡ some (some (e.0, q)))
        × (value_at s (some q) ≡ some (some e.1)))
      ⊎ ((first_from start (entries 0 count t) ≡ none)
          × (next s count 0 count root start [] ≡ some none))
unfolding back
next-first_from s count start root t forks h proper =
    next-Outcome s count 0 count root t start [] forks h proper (omega arith) (omega arith)
