-- ===== src/Static/Backtrack.antt =====
-- The second part of `_cesk_static_tree_next`: one step back along the path.
use adam.Base.{
  ℕ, ◌-◌, ◌≤◌, ◌≡◌, ◌⊎◌, refl, subst, true, false, Option, none, some, List, ◌∷◌, ◌==◌, ltb, arith,
  Bool-cases, inl, inr, ==_refl,
}
use adam.CeskSet.Methods.{Handle}
use adam.Static.{leaf, inner, Statics, middle}
use adam.Static.Shape.{Tree, bare, field, body_at, value_at, children-body}
use adam.Static.Ready.{value_at-leaf}
use adam.Static.Iterate.{Step, step, same_pointer, leftmost, back, arrive}
use adam.Static.Entries.{Entry, entries, first_from}
use adam.Static.Leftmost.{Forks, is_leaf-leaf}

pub first_from-bare : (start l r : ℕ) → first_from start (entries l r bare) ≡ none
unfolding first_from entries
first_from-bare start l r = refl

-- The search stops at the first field from `start` on that the tree has, or goes on along the path.
abbrev pub Outcome :
    Statics → ℕ → ℕ → Tree → ℕ → Option (Option (ℕ × ℕ)) → Option (Option (ℕ × ℕ)) → Type 0
Outcome s l r t start result rest =
    ((e : Entry) × (q : ℕ) × (first_from start (entries l r t) ≡ some e)
      × (result ≡ some (some (e.0, q)))
      × (value_at s (some q) ≡ some (some e.1)))
    ⊎ ((first_from start (entries l r t) ≡ none) × (result ≡ rest))

pub arrive-Outcome :
    (s : Statics) (l r p : ℕ) (v : Handle) (start : ℕ) (path : List Step)
    → body_at s p ≡ some (leaf v)
    → l ≤ start
    → Outcome s l r (field v) start (arrive s l p start path) (back s path (some p))
unfolding arrive entries first_from
arrive-Outcome s l r p v start path at low = elim (Bool-cases (l == start)) [
  | inl y ↦
      let stay : ltb l start ≡ false = ground (arith, y) in
      inl (
        (l, v),
        p,
        rw (first_from, stay) refl,
        ground (arith, is_leaf-leaf s p v at, y),
        value_at-leaf s p v at,
      )
  | inr n ↦
      let pass : ltb l start ≡ true = ground (arith, n, low) in
      inr (rw (first_from, pass) refl, ground (arith, is_leaf-leaf s p v at, n))
]

-- The path goes on above a node where its right child has nothing to give.
pub back_null :
    (s : Statics) (l r p : ℕ) (path : List Step) (c below : Option ℕ)
    → body_at s p ≡ some (inner c none)
    → back s (step l r p ∷ path) below ≡ back s path (some p)
unfolding back
back_null s l r p path c below at = ground (arith, children-body s p c none at)

pub back_same :
    (s : Statics) (l r p q : ℕ) (path : List Step) (c : Option ℕ)
    → body_at s p ≡ some (inner c (some q))
    → back s (step l r p ∷ path) (some q) ≡ back s path (some p)
unfolding back
back_same s l r p q path c at = ground (arith, children-body s p c (some q) at, ==_refl q)

pub back_found :
    (s : Statics) (l r p q : ℕ) (path : List Step) (c : Option ℕ) (x : ℕ × ℕ)
    → body_at s p ≡ some (inner c (some q))
    → same_pointer (some q) c ≡ false
    → leftmost s (r - l) (middle l r) r q ≡ some x
    → back s (step l r p ∷ path) c ≡ some (some x)
unfolding back
back_found s l r p q path c x at other run =
    ground (arith, children-body s p c (some q) at, other, run)

pub apart :
    (s : Statics) (p q : ℕ) (c : Option ℕ)
    → Forks s
    → body_at s p ≡ some (inner c (some q))
    → same_pointer (some q) c ≡ false
apart s p q none forks at = refl
apart s p q (some x) forks at = elim (Bool-cases (q == x)) [
  | inl y ↦
      let same : x ≡ q = ground (arith, y) in
      absurd (forks p q (subst (λ z. body_at s p ≡ some (inner (some z) (some q))) same at))
  | inr n ↦ n
]
