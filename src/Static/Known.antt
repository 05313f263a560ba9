-- ===== src/Static/Known.antt =====
-- `cesk_static_field_query`: a query leaves the initial values that are known, and can be repeated.
use adam.Base.{
  ℕ, ◌≡◌, ◌≢◌, refl, ◌∙◌, ap, true, false, some, ◌==◌, ltb, if◌then◌else◌, bit_and, bit_or, arith,
  Bool-cases, Option-cases, inl, inr,
}
use adam.Base.Int.{ℤ}
use adam.Address.{addr_null}
use adam.Sexp.{Pooled}
use adam.DalvikType.{Addresses}
use adam.Dalvik.MemberDict.{Name, Dict, get_field}
use adam.Static.{Statics}
use adam.Static.Table.{static_prefix}
use adam.Static.Query.{
  Field, attrs_static, initial_addr, defaults, with_defaults, query_field, field_query,
}

abbrev set_default : Statics → ℕ → ℕ → Statics
set_default s idx a = with_defaults (λ i. if i == idx then a else defaults s i) s

set_default-again :
    (s : Statics) (idx a : ℕ) → set_default (set_default s idx a) idx a ≡ set_default s idx a
unfolding defaults
set_default-again s idx a = ap (λ f. with_defaults f s) (λ j i. same i j)
  where
    same :
        (i : ℕ)
        → (if i == idx then a else (if i == idx then a else defaults s i))
          ≡ (if i == idx then a else defaults s i)
    same i = elim (Bool-cases (i == idx)) [ inl y ↦ rw y refl | inr n ↦ rw n refl ]

module _ (count : ℕ) (atoi atof : Pooled → ℤ) (token_true : Pooled) where
  -- The result of a query, which a second query gives again without a change.
  Settled : Field → Statics → Type 0
  Settled f s =
      (r : ℕ) × (t : Statics) × (query_field count atoi atof token_true f s ≡ some (r, t))
      × (query_field count atoi atof token_true f t ≡ some (r, t))
      × (with_defaults (defaults t) t ≡ t)
      × ((i : ℕ) → defaults s i ≢ addr_null → defaults t i ≡ defaults s i)

  unchanged :
      (f : Field) (s : Statics) (r : ℕ)
      → with_defaults (defaults s) s ≡ s
      → query_field count atoi atof token_true f s ≡ some (r, s)
      → Settled f s
  unfolding Settled
  unchanged f s r alloc run = (r, s, run, run, alloc, λ i known. refl)

  module _ (f : Field) (static : (bit_and f.attrs attrs_static == 0) ≡ false)
      (within : ltb f.offset count ≡ true) where
    known :
        (s : Statics)
        → (defaults s f.offset == addr_null) ≡ false
        → query_field count atoi atof token_true f s ≡ some (bit_or static_prefix f.offset, s)
    unfolding query_field
    known s n = ground (arith, static, within, n)

    unknown :
        (s : Statics) (a : ℕ)
        → (defaults s f.offset == addr_null) ≡ true
        → initial_addr atoi atof token_true f ≡ some a
        → query_field count atoi atof token_true f s
          ≡ some (bit_or static_prefix f.offset, set_default s f.offset a)
    unfolding query_field
    unknown s a y init = ground (arith, static, within, y, init)

    Settled-new :
        (s : Statics) (a : ℕ)
        → (defaults s f.offset == addr_null) ≡ true
        → initial_addr atoi atof token_true f ≡ some a
        → Settled f s
    unfolding Settled defaults
    Settled-new s a y init =
        let t = set_default s f.offset a in
        (
          bit_or static_prefix f.offset,
          t,
          unknown s a y init,
          elim (Bool-cases (defaults t f.offset == addr_null)) [
            | inl again ↦
                unknown t a again init
                ∙ ap (λ u. some (bit_or static_prefix f.offset, u)) (set_default-again s f.offset a)
            | inr n ↦ known t n
          ],
          refl,
          λ i set. elim (Bool-cases (i == f.offset)) [
            | inl at ↦
                let same : i ≡ f.offset = ground (arith, at) in
                absurd (set (ap (defaults s) same ∙ ground (arith, y)))
            | inr o ↦ rw o refl
          ],
        )

  query_field-Settled :
      (f : Field) (s : Statics) (a : ℕ)
      → with_defaults (defaults s) s ≡ s
      → initial_addr atoi atof token_true f ≡ some a
      → Settled f s
  unfolding Settled query_field
  query_field-Settled f s a alloc init = elim (Bool-cases (bit_and f.attrs attrs_static == 0)) [
    | inl y ↦ unchanged f s addr_null alloc (ground (arith, y))
    | inr is_static ↦ elim (Bool-cases (ltb f.offset count)) [
      | inr n ↦ unchanged f s addr_null alloc (ground (arith, is_static, n))
      | inl y ↦ elim (Bool-cases (defaults s f.offset == addr_null)) [
        | inr n ↦ unchanged f s (bit_or static_prefix f.offset) alloc (known f is_static y s n)
        | inl y' ↦ Settled-new f is_static y s a y' init
      ]
    ]
  ]

field_query-found :
    (count : ℕ) (atoi atof : Pooled → ℤ) (token_true : Pooled) (mem : Addresses) (dict : Dict)
    (fields : ℕ → Field) (path name : Name) (s : Statics) (at : ℕ)
    → get_field mem dict path name ≡ some at
    → field_query count atoi atof token_true mem dict fields path name s
      ≡ query_field count atoi atof token_true (fields at) (with_defaults (defaults s) s)
unfolding field_query
field_query-found count atoi atof token_true mem dict fields path name s at found =
    ground (arith, found)

-- A query of a field by its name ends; the same query again gives the same register and changes
-- nothing, and an initial value that is set already stays, whatever is queried. It takes that an
-- initial value can be read off the description of each field, that is, that a field with a literal
-- has a type.
pub field_query-again :
    (count : ℕ) (atoi atof : Pooled → ℤ) (token_true : Pooled) (mem : Addresses) (dict : Dict)
    (fields : ℕ → Field) (path name : Name) (s : Statics)
    → ((at : ℕ) → (a : ℕ) × (initial_addr atoi atof token_true (fields at) ≡ some a))
    → (r : ℕ) × (t : Statics) × (field_query count atoi atof token_true mem dict fields path name s
        ≡ some (r, t))
      × (field_query count atoi atof token_true mem dict fields path name t ≡ some (r, t))
      × ((i : ℕ) → defaults s i ≢ addr_null → defaults t i ≡ defaults s i)
unfolding field_query Settled defaults
field_query-again count atoi atof token_true mem dict fields path name s typed =
    let s' = with_defaults (defaults s) s in
    elim (Option-cases (get_field mem dict path name)) [
      | inl missing ↦
          (addr_null, s', ground (arith, missing), ground (arith, missing), λ i known. refl)
      | inr (at, found) ↦
          let (a, init) = typed at in
          let (r, t, run, again, alloc, keeps) =
            query_field-Settled count atoi atof token_true (fields at) s' a refl init in
          let go = λ (u : Statics).
            field_query-found count atoi atof token_true mem dict fields path name u at found in
          (
            r,
            t,
            go s ∙ run,
            go t ∙ ap (query_field count atoi atof token_true (fields at)) alloc ∙ again,
            keeps,
          )
    ]
