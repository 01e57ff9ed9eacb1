-- ===== src/Db/Sql/Lookup.antt =====
-- Queries whose condition fixes the primary key: at most one row answers, so the first row of the
-- result is the row with that key, if it passes the condition.
use file_processing_platform.Common.{
  String, ◌≡◌, refl, Bool, true, Option, none, some, List, arith, Bool-cases, inl, inr, keep_if,
  map_some,
}
use file_processing_platform.Common.Lists.{
  Elem, head?, head?-unique, head?-none, Elem-map, Elem-map_inv,
}
use file_processing_platform.Db.Sql.{SqlTable}

keep_if-eq-some :
    {R : Type 0} (p : R → Bool) (o : Option R) (r : R)
    → keep_if p o ≡ some r
    → (o ≡ some r) × (p r ≡ true)
keep_if-eq-some p none r e = cc
keep_if-eq-some p (some a) r e = elim (Bool-cases (p a)) [
  | inl passes ↦ let same : some a ≡ some r = rw passes at e in (same, ground arith)
  | inr fails ↦ ground arith
]

-- A list whose elements are those of an option starts with it.
head?-of_option :
    {R : Type 0} (o : Option R) (xs : List R)
    → ((r : R) → Elem r xs → o ≡ some r)
    → ((r : R) → o ≡ some r → Elem r xs)
    → head? xs ≡ o
head?-of_option none xs only all = head?-none xs (λ r m. absurd (cc (only r m)))
head?-of_option (some a) xs only all = head?-unique a xs (all a refl) (λ r m. cc (only r m))

map_some-eq-some :
    {R : Type 0} (f : R → R) (o : Option R) (r : R)
    → map_some f o ≡ some r
    → (a : R) × (o ≡ some a) × (r ≡ f a)
map_some-eq-some f none r e = absurd (cc)
map_some-eq-some f (some a) r e = (a, refl, cc)

-- The condition admits rows with one key only.
abbrev pub Pins : {R : Type 0} → (R → String) → (R → Bool) → String → Type 0
Pins {R} key p k = (r : R) → p r ≡ true → key r ≡ k

module _ {T R : Type 0} {key : R → String} (sql : SqlTable T R key) where
  -- A row that a pinned query returns is the row with the key, and it passes.
  Elem-select_pinned :
      (p : R → Bool) (k : String) (t : T) (r : R)
      → Pins key p k
      → Elem r (sql.select p t)
      → keep_if p (sql.row t k) ≡ some r
  Elem-select_pinned p k t r pins m =
      let (at, passes) = (sql.Elem-select p t r).0 m in
      let found : sql.row t k ≡ some r = rw (pins r passes) at at in rw (found, passes) refl

  Elem-select_found :
      (p : R → Bool) (k : String) (t : T) (r : R)
      → keep_if p (sql.row t k) ≡ some r
      → Elem r (sql.select p t)
  Elem-select_found p k t r e =
      let (found, passes) = keep_if-eq-some p (sql.row t k) r e in
      (sql.Elem-select p t r).1 (rw (sql.row_key t k r found) found, passes)

  -- The first row of a query.
  pub head?-select :
      (p : R → Bool) (k : String) (t : T)
      → Pins key p k
      → head? (sql.select p t) ≡ keep_if p (sql.row t k)
  head?-select p k t pins =
      head?-of_option (keep_if p (sql.row t k)) (sql.select p t)
        (λ r. Elem-select_pinned p k t r pins) (λ r. Elem-select_found p k t r)

  -- The first row that an update returns.
  pub head?-update :
      (p : R → Bool) (f : R → R) (k : String) (t : T)
      → Pins key p k
      → head? (sql.update p f t).0 ≡ map_some f (keep_if p (sql.row t k))
  head?-update p f k t pins =
      let o : Option R = keep_if p (sql.row t k) in
      head?-of_option (map_some f o) (sql.update p f t).0
        (λ r m.
          let (a, n, e) = Elem-map_inv f r (sql.select p t) ((sql.update_returning p f t r).0 m) in
          rw (Elem-select_pinned p k t a pins n, e) refl)
        (λ r e.
          let (a, found, same) = map_some-eq-some f o r e in
          (sql.update_returning p f t r).1
            (rw same (Elem-map f a (sql.select p t) (Elem-select_found p k t a found))))

  -- The first row that a delete returns.
  pub head?-delete :
      (p : R → Bool) (k : String) (t : T)
      → Pins key p k
      → head? (sql.delete p t).0 ≡ keep_if p (sql.row t k)
  head?-delete p k t pins =
      head?-of_option (keep_if p (sql.row t k)) (sql.delete p t).0
        (λ r m. Elem-select_pinned p k t r pins ((sql.delete_returning p t r).0 m))
        (λ r e. (sql.delete_returning p t r).1 (Elem-select_found p k t r e))
