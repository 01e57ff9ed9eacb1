-- ===== src/Examples/ListTable/Rows.antt =====
-- Lists of rows with distinct keys: lookup, an unused key, filters, updates and sorting.
use Prim.Native.String
use Prim.Native.String.{[] as nil, ◌∷◌ as cons}
use text.Mathlib.TextLemmas.{nil-append, cons-append}
use file_processing_platform.Common.{
  ℕ, suc, ◌+◌, ◌≤◌, ◌<◌, String, ◌≡◌, refl, sym, ap, ◌∙◌, ◌≢◌, ◌⊎◌, inl, inr, Bool, true, false,
  ◌&&◌, Option, none, some, List, [], ◌∷◌, ◌==◌, eq_iff, eq_false, eq_self, map, arith,
  if◌then◌else◌, keep_if, map_some, leb, Bool-cases,
}
use file_processing_platform.Common.Lists.{
  Elem, All, All_elem, All-intro, filter, keep, length, IsDescending, Elem-filter_inv,
}

abbrev text_length : String → ℕ
text_length String.[] = 0
text_length (String.◌∷◌ c s) = suc (text_length s)

text_length-append : (s t : String) → text_length (String.◌++◌ s t) ≡ text_length s + text_length t
text_length-append String.[] t = rw nil-append (omega arith)
text_length-append (String.◌∷◌ c s) t = rw cons-append (omega (arith, text_length-append s t))

module _ {R : Type 0} (key : R → String) where
  abbrev pub find : List R → String → Option R
  find [] k = none
  find (x ∷ xs) k = if key x == k then some x else find xs k

  abbrev pub NotIn : String → List R → Type 0
  NotIn k xs = All (λ y. key y ≢ k) xs

  abbrev pub Distinct : List R → Type 0
  Distinct [] = Unit
  Distinct (x ∷ xs) = NotIn (key x) xs × Distinct xs

  unfoldable pub fresh_key : List R → String
  fresh_key [] = "x"
  fresh_key (x ∷ xs) = String.◌++◌ (key x) (fresh_key xs)

  fresh_key_pos : (xs : List R) → 0 < text_length (fresh_key xs)
  unfolding fresh_key
  fresh_key_pos [] = omega arith
  fresh_key_pos (x ∷ xs) =
      omega (arith, text_length-append (key x) (fresh_key xs), fresh_key_pos xs)

  fresh_key_longer :
      (xs : List R) (y : R) → Elem y xs → text_length (key y) < text_length (fresh_key xs)
  unfolding fresh_key
  fresh_key_longer [] y m = absurd m
  fresh_key_longer (x ∷ xs) y (inl e) =
      rw e (omega (arith, text_length-append (key x) (fresh_key xs), fresh_key_pos xs))
  fresh_key_longer (x ∷ xs) y (inr m) =
      omega (arith, text_length-append (key x) (fresh_key xs), fresh_key_longer xs y m)

  find-NotIn : (xs : List R) (k : String) → NotIn k xs → find xs k ≡ none
  find-NotIn [] k h = refl
  find-NotIn (x ∷ xs) k h = rw (eq_false (key x) k h.0) (find-NotIn xs k h.1)

  pub find-fresh_key : (xs : List R) → find xs (fresh_key xs) ≡ none
  find-fresh_key xs = find-NotIn xs (fresh_key xs) (
      All-intro (λ y. key y ≢ fresh_key xs) xs
        (λ y m same.
          let longer = fresh_key_longer xs y m in
          let equal = ap text_length same in absurd (omega arith)))

  pub NotIn-of_find : (xs : List R) (k : String) → find xs k ≡ none → NotIn k xs
  NotIn-of_find [] k h = tt
  NotIn-of_find (x ∷ xs) k h = elim (Bool-cases (key x == k)) [
    | inl same ↦ absurd (ground (arith, same))
    | inr other ↦
        (λ e. ground (arith, other, eq_iff (key x) k, e), NotIn-of_find xs k (rw other at h))
  ]

  pub find-key : (xs : List R) (k : String) (r : R) → find xs k ≡ some r → key r ≡ k
  find-key [] k r h = absurd (cc)
  find-key (x ∷ xs) k r h = elim (Bool-cases (key x == k)) [
    | inl same ↦
        let e : some x ≡ some r = rw same at h in
        let e' : x ≡ r = cc in rw (← e') ((eq_iff (key x) k).0 same)
    | inr other ↦ find-key xs k r (rw other at h)
  ]

  pub find-Elem : (xs : List R) (k : String) (r : R) → find xs k ≡ some r → Elem r xs
  find-Elem [] k r h = absurd (cc)
  find-Elem (x ∷ xs) k r h = elim (Bool-cases (key x == k)) [
    | inl same ↦ let e : some x ≡ some r = rw same at h in inl (cc)
    | inr other ↦ inr (find-Elem xs k r (rw other at h))
  ]

  pub Elem-find : (xs : List R) (r : R) → Distinct xs → Elem r xs → find xs (key r) ≡ some r
  Elem-find [] r d m = absurd m
  Elem-find (x ∷ xs) r d (inl e) = rw (e, eq_self (key x)) refl
  Elem-find (x ∷ xs) r d (inr m) =
      rw (eq_false (key x) (key r) (λ same. All_elem (λ y. key y ≢ key x) r xs d.0 m (sym same)))
        (Elem-find xs r d.1 m)

  NotIn-filter : (p : R → Bool) (k : String) (xs : List R) → NotIn k xs → NotIn k (filter p xs)
  NotIn-filter p k xs h =
      All-intro (λ y. key y ≢ k) (filter p xs)
        (λ y m. All_elem (λ y. key y ≢ k) y xs h (Elem-filter_inv p y xs m).0)

  Distinct-keep :
      (b : Bool) (x : R) (xs : List R) → NotIn (key x) xs → Distinct xs → Distinct (keep b x xs)
  Distinct-keep true x xs n d = (n, d)
  Distinct-keep false x xs n d = d

  pub Distinct-filter : (p : R → Bool) (xs : List R) → Distinct xs → Distinct (filter p xs)
  Distinct-filter p [] d = tt
  Distinct-filter p (x ∷ xs) d =
      Distinct-keep (p x) x (filter p xs) (NotIn-filter p (key x) xs d.0) (Distinct-filter p xs d.1)

  pub find-filter :
      (p : R → Bool) (xs : List R) (k : String)
      → Distinct xs
      → find (filter p xs) k ≡ keep_if p (find xs k)
  find-filter p [] k d = refl
  find-filter p (x ∷ xs) k d = elim (Bool-cases (key x == k)) [
    | inl same ↦ elim (Bool-cases (p x)) [
      | inl passes ↦ rw (passes, same, passes) refl
      | inr fails ↦
          let here = (eq_iff (key x) k).0 same in
          rw (fails, same, fails)
            (find-NotIn (filter p xs) k (NotIn-filter p k xs (rw here at (d.0))))
    ]
    | inr other ↦ elim (Bool-cases (p x)) [
      | inl passes ↦ rw (passes, other) (find-filter p xs k d.1)
      | inr fails ↦ rw (fails, other) (find-filter p xs k d.1)
    ]
  ]

  -- The new row if the condition holds and the key stays.
  abbrev pub rekeyed : (R → Bool) → (R → R) → R → R
  rekeyed p f r = if p r && (key (f r) == key r) then f r else r

  key-rekeyed : (p : R → Bool) (f : R → R) (r : R) → key (rekeyed p f r) ≡ key r
  key-rekeyed p f r = ground (arith, eq_iff (key (f r)) (key r))

  NotIn-map-rekeyed :
      (p : R → Bool) (f : R → R) (k : String) (xs : List R)
      → NotIn k xs
      → NotIn k (map (rekeyed p f) xs)
  NotIn-map-rekeyed p f k [] h = tt
  NotIn-map-rekeyed p f k (x ∷ xs) h =
      (λ e. h.0 (sym (key-rekeyed p f x) ∙ e), NotIn-map-rekeyed p f k xs h.1)

  pub Distinct-map-rekeyed :
      (p : R → Bool) (f : R → R) (xs : List R) → Distinct xs → Distinct (map (rekeyed p f) xs)
  Distinct-map-rekeyed p f [] d = tt
  Distinct-map-rekeyed p f (x ∷ xs) d = (
    rw (key-rekeyed p f x) (NotIn-map-rekeyed p f (key x) xs d.0),
    Distinct-map-rekeyed p f xs d.1,
  )

  pub find-map-rekeyed :
      (p : R → Bool) (f : R → R) (xs : List R) (k : String)
      → ((r : R) → key (f r) ≡ key r)
      → find (map (rekeyed p f) xs) k ≡ map_some (λ r. if p r then f r else r) (find xs k)
  find-map-rekeyed p f [] k h = refl
  find-map-rekeyed p f (x ∷ xs) k h = rw (key-rekeyed p f x) (elim (Bool-cases (key x == k)) [
    | inl same ↦ rw (same, h x, eq_self (key x)) (ground arith)
    | inr other ↦ rw other (find-map-rekeyed p f xs k h)
  ])

module _ {R : Type 0} where
  length-keep-le :
      (b : Bool) (x : R) (xs ys : List R)
      → length xs ≤ length ys
      → length (keep b x xs) ≤ length (keep b x ys)
  length-keep-le true x xs ys h = omega arith
  length-keep-le false x xs ys h = h

  pub length-filter-filter-le :
      (p q : R → Bool) (xs : List R) → length (filter p (filter q xs)) ≤ length (filter p xs)
  length-filter-filter-le p q [] = omega arith
  length-filter-filter-le p q (x ∷ xs) = elim (Bool-cases (q x)) [
    | inl passes ↦ rw passes (
        length-keep-le (p x) x (filter p (filter q xs)) (filter p xs)
          (length-filter-filter-le p q xs))
    | inr fails ↦ rw fails (ground (arith, length-filter-filter-le p q xs))
  ]

module _ {R : Type 0} (c : R → ℕ) where
  insert_desc : R → List R → List R
  insert_desc r [] = r ∷ []
  insert_desc r (x ∷ xs) =
      let later = insert_desc r xs in if leb (c x) (c r) then r ∷ x ∷ xs else x ∷ later

  unfoldable pub sort_desc : List R → List R
  unfolding insert_desc
  sort_desc [] = []
  sort_desc (x ∷ xs) = insert_desc x (sort_desc xs)

  Elem-insert_desc : (a r : R) (xs : List R) → (a ≡ r) ⊎ Elem a xs → Elem a (insert_desc r xs)
  unfolding insert_desc
  Elem-insert_desc a r [] h = h
  Elem-insert_desc a r (x ∷ xs) h = elim (Bool-cases (leb (c x) (c r))) [
    | inl above ↦ rw above h
    | inr below ↦ rw below (elim h [
      | inl e ↦ inr (Elem-insert_desc a r xs (inl e))
      | inr m ↦ elim m [ inl e ↦ inl e | inr n ↦ inr (Elem-insert_desc a r xs (inr n)) ]
    ])
  ]

  Elem-insert_desc_inv : (a r : R) (xs : List R) → Elem a (insert_desc r xs) → (a ≡ r) ⊎ Elem a xs
  unfolding insert_desc
  Elem-insert_desc_inv a r [] h = h
  Elem-insert_desc_inv a r (x ∷ xs) h = elim (Bool-cases (leb (c x) (c r))) [
    | inl above ↦ rw above at h
    | inr below ↦
        let h' : (a ≡ x) ⊎ Elem a (insert_desc r xs) = rw below at h in
        elim h' [
          | inl e ↦ inr (inl e)
          | inr m ↦ elim (Elem-insert_desc_inv a r xs m) [ inl e ↦ inl e | inr n ↦ inr (inr n) ]
        ]
  ]

  pub Elem-sort_desc : (a : R) (xs : List R) → Elem a xs → Elem a (sort_desc xs)
  unfolding sort_desc
  Elem-sort_desc a [] m = m
  Elem-sort_desc a (x ∷ xs) (inl e) = Elem-insert_desc a x (sort_desc xs) (inl e)
  Elem-sort_desc a (x ∷ xs) (inr m) =
      Elem-insert_desc a x (sort_desc xs) (inr (Elem-sort_desc a xs m))

  pub Elem-sort_desc_inv : (a : R) (xs : List R) → Elem a (sort_desc xs) → Elem a xs
  unfolding sort_desc
  Elem-sort_desc_inv a [] m = m
  Elem-sort_desc_inv a (x ∷ xs) m = elim (Elem-insert_desc_inv a x (sort_desc xs) m) [
    | inl e ↦ inl e
    | inr n ↦ inr (Elem-sort_desc_inv a xs n)
  ]

  length-insert_desc : (r : R) (xs : List R) → length (insert_desc r xs) ≡ suc (length xs)
  unfolding insert_desc
  length-insert_desc r [] = refl
  length-insert_desc r (x ∷ xs) = ground (arith, length-insert_desc r xs)

  pub length-sort_desc : (xs : List R) → length (sort_desc xs) ≡ length xs
  unfolding sort_desc
  length-sort_desc [] = refl
  length-sort_desc (x ∷ xs) = length-insert_desc x (sort_desc xs) ∙ ap suc (length-sort_desc xs)

  insert_desc-IsDescending :
      (r : R) (xs : List R) → IsDescending c xs → IsDescending c (insert_desc r xs)
  unfolding insert_desc
  insert_desc-IsDescending r [] d = (tt, tt)
  insert_desc-IsDescending r (x ∷ xs) d = elim (Bool-cases (leb (c x) (c r))) [
    | inl above ↦ rw above (
        (
          All-intro (λ y. c y ≤ c r) (x ∷ xs)
              (λ y m. elim m [
                | inl e ↦ rw e (ground arith)
                | inr n ↦ ground (arith, All_elem (λ y. c y ≤ c x) y xs d.0 n)
              ]),
          d,
        ))
    | inr below ↦ rw below (
        (
          All-intro (λ y. c y ≤ c x) (insert_desc r xs)
              (λ y m. elim (Elem-insert_desc_inv y r xs m) [
                | inl e ↦ rw e (ground arith)
                | inr n ↦ All_elem (λ y. c y ≤ c x) y xs d.0 n
              ]),
          insert_desc-IsDescending r xs d.1,
        ))
  ]

  pub sort_desc-IsDescending : (xs : List R) → IsDescending c (sort_desc xs)
  unfolding sort_desc
  sort_desc-IsDescending [] = tt
  sort_desc-IsDescending (x ∷ xs) =
      insert_desc-IsDescending x (sort_desc xs) (sort_desc-IsDescending xs)
