-- ===== src/Dalvik/Label/Numbered.antt =====
-- The numbers of labels.
use adam.Base.{
  ℕ, ◌<◌, ◌≡◌, refl, sym, ◌∙◌, ap, subst, ◌⊎◌, inl, inr, Bool, true, false, ◌&&◌, ◌||◌, Option,
  none, some, List, [], ◌∷◌, ◌==◌, ltb, if◌then◌else◌, arith, Bool-cases, Option-cases, ==_refl,
}
use mathlib.Core.Option
use mathlib.Core.Option.{some-injective}
use adam.Base.Chains.{first_where}
use adam.Dalvik.Label.{
  pool_size, Entry, Labels, init, slot_of, is_label, find, exists_in, exists, add_label,
  get_label_id,
}
use adam.Dalvik.Label.Added.{number, is_some, added, number-added, IsNumbering}

-- A call for a label: what it returns and what it leaves.
pub record Named (s : Labels) (label : ℕ) (r : Option ℕ) (t : Labels) : Type 0 where
  pub valid : IsNumbering t
  pub found : (k : ℕ) → number s label ≡ some k → r ≡ some k
  pub given : (k : ℕ) → r ≡ some k → (number t label ≡ some k) × (k < pool_size)
  pub kept : (m k : ℕ) → number s m ≡ some k → number t m ≡ some k

number_after :
    (s : Labels) (label l k : ℕ)
    → number (added label s) l ≡ some k
    → ((l ≡ label) × (s.count ≡ k)) ⊎ (((l == label) ≡ false) × (number s l ≡ some k))
number_after s label l k e =
    let now : (if l == label then some s.count else number s l) ≡ some k =
      sym (number-added s label l) ∙ e in
    elim (Bool-cases (l == label)) [
      | inl y ↦
          let held : some s.count ≡ some k =
            ap (λ (c : Bool). if c then some s.count else number s l) (sym y) ∙ now in
          inl (ground (arith, y), some-injective s.count k held)
      | inr n ↦ inr (n, ap (λ (c : Bool). if c then some s.count else number s l) (sym n) ∙ now)
    ]

-- The new number was no label's.
fresh_number : (s : Labels) (l k : ℕ) → IsNumbering s → s.count ≡ k → number s l ≡ some k → ⊥
fresh_number s l k v e f = absurd (omega (arith, v.below l k f, e))

added-IsNumbering :
    (s : Labels) (label : ℕ) → IsNumbering s → s.count < pool_size → IsNumbering (added label s)
added-IsNumbering s label v lt = record {
  room = omega arith;
  below = λ l k e. elim (number_after s label l k e) [
    | inl (_, at) ↦ omega arith
    | inr (_, old) ↦ omega (arith, v.below l k old)
  ];
  injective = λ l m k e f. elim (number_after s label l k e) [
    | inl (a, at) ↦ elim (number_after s label m k f) [
      | inl (b, _) ↦ a ∙ sym b
      | inr (_, old) ↦ absurd (fresh_number s m k v at old)
    ]
    | inr (_, old) ↦ elim (number_after s label m k f) [
      | inl (b, at) ↦ absurd (fresh_number s l k v at old)
      | inr (_, old_m) ↦ v.injective l m k old old_m
    ]
  ];
}

exists_in-first_where :
    (es : List Entry) (label : ℕ) → exists_in es label ≡ is_some (first_where (is_label label) es)
unfolding exists_in first_where
exists_in-first_where [] label = refl
exists_in-first_where (e ∷ es) label = elim (Bool-cases (e.label == label)) [
  | inl y ↦ rw y refl
  | inr n ↦ rw n (exists_in-first_where es label)
]

exists-find : (s : Labels) (label : ℕ) → exists s label ≡ is_some (find s label)
unfolding exists find
exists-find s label = exists_in-first_where (s.table (slot_of label)) label

runs_there :
    (s : Labels) (room : Bool) (label : ℕ) (e : Entry)
    → find s label ≡ some e
    → get_label_id room label s ≡ (some e.idx, s)
unfolding get_label_id
runs_there s room label e h = ground (arith, h)

runs_new :
    (s : Labels) (label : ℕ)
    → find s label ≡ none
    → s.count < pool_size
    → get_label_id true label s ≡ (some s.count, added label s)
unfolding get_label_id add_label
runs_new s label h lt =
    let b : ltb s.count pool_size ≡ true = ground (arith, lt) in ground (arith, h, b)

runs_refused :
    (s : Labels) (room : Bool) (label : ℕ)
    → find s label ≡ none
    → (room && ltb s.count pool_size) ≡ false
    → get_label_id room label s ≡ (none, s)
unfolding get_label_id add_label
runs_refused s true label h b =
    let c : ltb s.count pool_size ≡ false = ground (arith, b) in ground (arith, h, c)
runs_refused s false label h b = ground (arith, h)

Named-there :
    (s : Labels) (label : ℕ) (e : Entry)
    → IsNumbering s
    → find s label ≡ some e
    → Named s label (some e.idx) s
Named-there s label e v h =
    let has_it : number s label ≡ some e.idx = ap (Option.map (λ x. x.idx)) h in
    record {
      valid = v;
      found = λ k p. sym has_it ∙ p;
      given = λ k p. (has_it ∙ p, omega (arith, v.room, v.below label k (has_it ∙ p)));
      kept = λ m k p. p;
    }

Named-new :
    (s : Labels) (label : ℕ)
    → IsNumbering s
    → find s label ≡ none
    → s.count < pool_size
    → Named s label (some s.count) (added label s)
Named-new s label v h lt =
    let missing : number s label ≡ none = ap (Option.map (λ x. x.idx)) h in
    let now : number (added label s) label ≡ some s.count =
      number-added s label label ∙ rw (==_refl label) refl in
    record {
      valid = added-IsNumbering s label v lt;
      found = λ k p. absurd (ground (arith, missing, p));
      given = λ k p. (now ∙ p, omega (arith, lt, some-injective s.count k p));
      kept = λ m k p. elim (Bool-cases (m == label)) [
        | inl y ↦
            let same : number s m ≡ number s label = ap (number s) (ground (arith, y)) in
            absurd (ground (arith, same, missing, p))
        | inr n ↦ number-added s label m ∙ rw n p
      ];
    }

Named-refused :
    (s : Labels) (label : ℕ) → IsNumbering s → find s label ≡ none → Named s label none s
Named-refused s label v h =
    let missing : number s label ≡ none = ap (Option.map (λ x. x.idx)) h in
    record {
      valid = v;
      found = λ k p. absurd (ground (arith, missing, p));
      given = λ k p. absurd (ground (arith, p));
      kept = λ m k p. p;
    }

-- A call for the number of a label: a label that has one keeps it; one that has none gets a number
-- below the size of the pool that no label has, or is refused, if there is no memory or the pool is
-- full; all labels keep their numbers.
pub get_label_id-Named :
    (s : Labels) (room : Bool) (label : ℕ)
    → IsNumbering s
    → (r : Option ℕ) × (t : Labels) × (get_label_id room label s ≡ (r, t))
      × Named s label r t
      × (is_some r ≡ (exists s label || (room && ltb s.count pool_size)))
get_label_id-Named s room label v = elim (Option-cases (find s label)) [
  | inr (e, h) ↦ (
    some e.idx,
    s,
    runs_there s room label e h,
    Named-there s label e v h,
    sym (rw (exists-find s label, h) refl),
  )
  | inl h ↦ elim (Bool-cases (room && ltb s.count pool_size)) [
    | inl y ↦
        let lt : s.count < pool_size = ground (arith, y) in
        let enough : true ≡ room = ground (arith, y) in
        (
          some s.count,
          added label s,
          ap (λ b. get_label_id b label s) (sym enough) ∙ runs_new s label h lt,
          Named-new s label v h lt,
          sym (rw (exists-find s label, h, y) refl),
        )
    | inr n ↦ (
      none,
      s,
      runs_refused s room label h n,
      Named-refused s label v h,
      sym (rw (exists-find s label, h, n) refl),
    )
  ]
]

init-IsNumbering : IsNumbering init
unfolding find first_where
init-IsNumbering = record {
  room = omega arith;
  below = λ l k e. absurd (ground (arith, e));
  injective = λ l m k e f. absurd (ground (arith, e));
}

-- The calls of a parser, one after the other, from the start.
unfoldable pub labels_after : List (Bool × ℕ) → Labels
labels_after [] = init
labels_after ((room, label) ∷ earlier) = (get_label_id room label (labels_after earlier)).1

pub labels_after-IsNumbering : (calls : List (Bool × ℕ)) → IsNumbering (labels_after calls)
unfolding labels_after
labels_after-IsNumbering [] = init-IsNumbering
labels_after-IsNumbering ((room, label) ∷ earlier) =
    let (r, t, run, named, _) =
      get_label_id-Named (labels_after earlier) room label (labels_after-IsNumbering earlier) in
    subst IsNumbering (sym (ap (λ (q : Option ℕ × Labels). q.1) run)) named.valid

-- After any calls, every number is an index of the jump table, and labels of the same number are
-- the same.
pub labels_after-number :
    (calls : List (Bool × ℕ)) (l m k : ℕ)
    → number (labels_after calls) l ≡ some k
    → number (labels_after calls) m ≡ some k
    → (k < pool_size) × (l ≡ m)
labels_after-number calls l m k e f =
    let v = labels_after-IsNumbering calls in
    (omega (arith, v.room, v.below l k e), v.injective l m k e f)
