-- ===== src/Dalvik/MemberDict/Prefix.antt =====
-- The test for a prefix, and the search by prefixes.
use adam.Base.{
  ℕ, zero, suc, ◌+◌, ◌<◌, ◌≤◌, ◌≡◌, refl, sym, ◌∙◌, ap, subst, ◌⊎◌, inl, inr, ◌↔◌, true, false,
  some, List, [], ◌∷◌, ◌++◌, ◌==◌, ltb, length, arith, Bool-cases,
}
use mathlib.Core.List.{append_assoc, append-nil}
use adam.Sexp.{Pooled}
use adam.Dalvik.MemberDict.{
  Dict, Node, Name, prefix_loop, check_prefix, match_chain, match_slots, member_match, dict_size,
}

abbrev pub IsPrefix : List ℕ → List ℕ → Type 0
IsPrefix p s = (rest : List ℕ) × (p ++ rest ≡ s)

prefix_loop_sound : (p s : List ℕ) → prefix_loop p s ≡ true → IsPrefix p s ⊎ IsPrefix s p
unfolding prefix_loop
prefix_loop_sound [] s h = inl (s, refl)
prefix_loop_sound (x ∷ p) [] h = inr (x ∷ p, refl)
prefix_loop_sound (x ∷ p) (y ∷ s) h = elim (Bool-cases (x == y)) [
  | inl e ↦
      let same : x ≡ y = ground (arith, e) in
      elim (prefix_loop_sound p s (ground (arith, e, h))) [
        | inl (rest, q) ↦ inl (rest, ap (λ t. x ∷ t) q ∙ ap (λ t. t ∷ s) same)
        | inr (rest, q) ↦ inr (rest, ap (λ t. y ∷ t) q ∙ ap (λ t. t ∷ p) (sym same))
      ]
  | inr n ↦ absurd (ground (arith, n, h))
]

prefix_loop-forward : (p s : List ℕ) → prefix_loop p (p ++ s) ≡ true
unfolding prefix_loop
prefix_loop-forward [] s = refl
prefix_loop-forward (x ∷ p) s =
    let b : (x == x) ≡ true = ground arith in rw (b, prefix_loop-forward p s) refl

prefix_loop-back : (p s : List ℕ) → prefix_loop (p ++ s) p ≡ true
unfolding prefix_loop
prefix_loop-back [] [] = refl
prefix_loop-back [] (y ∷ s) = refl
prefix_loop-back (x ∷ p) s =
    let b : (x == x) ≡ true = ground arith in rw (b, prefix_loop-back p s) refl

prefix_loop_complete : (p s : List ℕ) → IsPrefix p s ⊎ IsPrefix s p → prefix_loop p s ≡ true
prefix_loop_complete p s (inl (rest, q)) = ap (prefix_loop p) (sym q) ∙ prefix_loop-forward p rest
prefix_loop_complete p s (inr (rest, q)) =
    ap (λ t. prefix_loop t s) (sym q) ∙ prefix_loop-back s rest

-- The test for a prefix accepts a string just when one of the two is a prefix of the other: a name
-- that is shorter than the prefix is accepted too if the prefix begins with it.
pub check_prefix_iff :
    (p s : Pooled)
    → (check_prefix (some p) (some s) ≡ true) ↔ (IsPrefix p.str s.str ⊎ IsPrefix s.str p.str)
unfolding check_prefix
check_prefix_iff p s = (prefix_loop_sound p.str s.str, prefix_loop_complete p.str s.str)

-- The matches of the chains from `i` on, of which there are `n`.
abbrev pub matches_from : Name → Name → Dict → ℕ → ℕ → List Node
matches_from c m dict i zero = []
matches_from c m dict i (suc n) = match_chain c m (dict i) ++ matches_from c m dict (i + 1) n

match_slots-next :
    (c m : Name) (dict : Dict) (bufsize slots i : ℕ) (out : List Node)
    → length out < bufsize
    → match_slots c m dict bufsize (suc slots) i out
      ≡ match_slots c m dict bufsize slots (i + 1) (out ++ match_chain c m (dict i))
unfolding match_slots
match_slots-next c m dict bufsize slots i out lt =
    let b : ltb (length out) bufsize ≡ true = ground (arith, lt) in rw b refl

match_slots-full :
    (c m : Name) (dict : Dict) (bufsize slots i : ℕ) (out : List Node)
    → bufsize ≤ length out
    → match_slots c m dict bufsize slots i out ≡ out
unfolding match_slots
match_slots-full c m dict bufsize zero i out le = refl
match_slots-full c m dict bufsize (suc slots) i out le =
    let b : ltb (length out) bufsize ≡ false = ground (arith, le) in rw b refl

match_slots-matches_from :
    (c m : Name) (dict : Dict) (bufsize slots i : ℕ) (out : List Node)
    → (n : ℕ) × (match_slots c m dict bufsize slots i out ≡ out ++ matches_from c m dict i n)
      × (n ≤ slots)
      × ((n ≡ slots) ⊎ (bufsize ≤ length (out ++ matches_from c m dict i n)))
unfolding match_slots
match_slots-matches_from c m dict bufsize zero i out =
    (zero, sym (append-nil out), omega arith, inl refl)
match_slots-matches_from c m dict bufsize (suc slots) i out =
    elim (Bool-cases (ltb (length out) bufsize)) [
      | inl y ↦
          let here = match_chain c m (dict i) in
          let (n, same, le, why) =
            match_slots-matches_from c m dict bufsize slots (i + 1) (out ++ here) in
          let joined = append_assoc out here (matches_from c m dict (i + 1) n) in
          (
            suc n,
            match_slots-next c m dict bufsize slots i out (ground (arith, y)) ∙ same ∙ joined,
            omega arith,
            elim why [
              | inl all ↦ inl (ap suc all)
              | inr full ↦ inr (subst (λ (o : List Node). bufsize ≤ length o) joined full)
            ],
          )
      | inr n ↦
          let full : bufsize ≤ length out = ground (arith, n) in
          (
            zero,
            match_slots-full c m dict bufsize (suc slots) i out full ∙ sym (append-nil out),
            omega arith,
            inr (subst (λ (o : List Node). bufsize ≤ length o) (sym (append-nil out)) full),
          )
    ]

-- The search by prefixes returns all matches of the chains before some slot, and stops there only
-- if the table ends or the buffers are full.
pub member_match-matches_from :
    (c m : Name) (dict : Dict) (bufsize : ℕ)
    → (n : ℕ) × (member_match c m dict bufsize ≡ matches_from c m dict 0 n)
      × (n ≤ dict_size)
      × ((n ≡ dict_size) ⊎ (bufsize ≤ length (member_match c m dict bufsize)))
unfolding member_match
member_match-matches_from c m dict bufsize =
    let (n, same, le, why) = match_slots-matches_from c m dict bufsize dict_size 0 [] in
    (
      n,
      same,
      le,
      elim why [
        | inl all ↦ inl all
        | inr full ↦ inr (subst (λ (o : List Node). bufsize ≤ length o) (sym same) full)
      ],
    )

-- Where the buffers have a place and the first chain has more matches than they have places, the
-- search writes exactly the matches of that chain, all of them, so that it writes behind the end of
-- the buffers.
pub member_match_overruns :
    (c m : Name) (dict : Dict) (bufsize : ℕ)
    → 0 < bufsize
    → bufsize < length (match_chain c m (dict 0))
    → (member_match c m dict bufsize ≡ match_chain c m (dict 0))
      × (bufsize < length (member_match c m dict bufsize))
unfolding member_match
member_match_overruns c m dict bufsize pos many =
    let first = match_slots-next c m dict bufsize 100006 0 [] pos in
    let full =
      match_slots-full c m dict bufsize 100006 1 (match_chain c m (dict 0)) (omega arith) in
    (first ∙ full, subst (λ (o : List Node). bufsize < length o) (sym (first ∙ full)) many)
