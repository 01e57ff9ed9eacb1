-- ===== src/Common/Lists.antt =====
-- Lists over the native numbers: length, slices, membership as a recursive family, and the facts
-- that pin down the first element of a result set.
use Prim.Native.Nat.{ℕ, zero, suc, ◌+◌, ◌*◌, ◌≤◌, ◌<◌}
use Prim.Native.Nat.add
use Prim.Native.Nat.mul
use mathlib.Core.Path.{◌≡◌, refl, sym, subst, ap, ◌∙◌}
use mathlib.Core.Logic.{◌⊎◌, inl, inr, ◌↔◌}
use mathlib.Core.Bool.{Bool, true, false}
use mathlib.Core.List.{List, [], ◌∷◌, ◌++◌, map}
use mathlib.Core.Option.{Option, none, some}
use native.Mathlib.Omega.{arith}

module _ {ℓ} {A : Type ℓ} where
  abbrev pub length : List A → ℕ
  length [] = 0
  length (x ∷ xs) = suc (length xs)

  abbrev pub take : ℕ → List A → List A
  take zero xs = []
  take (suc n) [] = []
  take (suc n) (x ∷ xs) = x ∷ take n xs

  abbrev pub drop : ℕ → List A → List A
  drop zero xs = xs
  drop (suc n) [] = []
  drop (suc n) (x ∷ xs) = drop n xs

  -- `const [x] = xs`
  abbrev pub head? : List A → Option A
  head? [] = none
  head? (x ∷ xs) = some x

  pub length-take-le : (n : ℕ) (xs : List A) → length (take n xs) ≤ n
  length-take-le zero xs = omega arith
  length-take-le (suc n) [] = omega arith
  length-take-le (suc n) (x ∷ xs) = omega (arith, length-take-le n xs)

  drop-of-length-le : (n : ℕ) (xs : List A) → length xs ≤ n → drop n xs ≡ []
  drop-of-length-le zero [] h = refl
  drop-of-length-le zero (x ∷ xs) h = absurd (omega arith)
  drop-of-length-le (suc n) [] h = refl
  drop-of-length-le (suc n) (x ∷ xs) h = drop-of-length-le n xs (omega arith)

  take-of-length-le : (n : ℕ) (xs : List A) → length xs ≤ n → take n xs ≡ xs
  take-of-length-le zero [] h = refl
  take-of-length-le zero (x ∷ xs) h = absurd (omega arith)
  take-of-length-le (suc n) [] h = refl
  take-of-length-le (suc n) (x ∷ xs) h = ap (λ t. x ∷ t) (take-of-length-le n xs (omega arith))

  -- A longer prefix is a shorter one and a slice behind it.
  take_split : (m n : ℕ) (xs : List A) → take m xs ++ take n (drop m xs) ≡ take (m + n) xs
  take_split zero n xs = rw (add.zero n) refl
  take_split (suc m) zero [] = rw (add.suc m zero) refl
  take_split (suc m) (suc n) [] = rw (add.suc m (suc n)) refl
  take_split (suc m) n (x ∷ xs) = rw (add.suc m n) (ap (λ t. x ∷ t) (take_split m n xs))

  -- The first `count` slices of length `limit`, one behind the other.
  abbrev pub slices : ℕ → ℕ → List A → List A
  slices zero limit xs = []
  slices (suc count) limit xs = slices count limit xs ++ take limit (drop (count * limit) xs)

  slices-eq-take : (count limit : ℕ) (xs : List A) → slices count limit xs ≡ take (count * limit) xs
  slices-eq-take zero limit xs = rw (mul.zero limit) refl
  slices-eq-take (suc count) limit xs =
      rw (slices-eq-take count limit xs, take_split (count * limit) limit xs)
        (ap (λ n. take n xs) (omega arith))

  -- Enough slices give the whole list, each element once and in order.
  pub slices_cover :
      (count limit : ℕ) (xs : List A) → length xs ≤ count * limit → slices count limit xs ≡ xs
  slices_cover count limit xs h =
      slices-eq-take count limit xs ∙ take-of-length-le (count * limit) xs h

module _ {A : Type 0} where
  abbrev pub Elem : A → List A → Type 0
  Elem a [] = ⊥
  Elem a (x ∷ xs) = (a ≡ x) ⊎ Elem a xs

  -- A list whose every element is `a`, and that has one, starts with `a`.
  pub head?-unique :
      (a : A) (xs : List A) → Elem a xs → ((x : A) → Elem x xs → x ≡ a) → head? xs ≡ some a
  head?-unique a [] m h = absurd m
  head?-unique a (x ∷ xs) m h = ap some (h x (inl refl))

  pub head?-none : (xs : List A) → ((x : A) → Elem x xs → ⊥) → head? xs ≡ none
  head?-none [] h = refl
  head?-none (x ∷ xs) h = absurd (h x (inl refl))

  pub head?-Elem : (a : A) (xs : List A) → head? xs ≡ some a → Elem a xs
  head?-Elem a [] h = absurd (cc)
  head?-Elem a (x ∷ xs) h = inl (cc)

  pub head?-none_inv : (a : A) (xs : List A) → head? xs ≡ none → Elem a xs → ⊥
  head?-none_inv a [] h m = m
  head?-none_inv a (x ∷ xs) h m = cc

  pub head?-take : (xs : List A) → head? (take 1 xs) ≡ head? xs
  head?-take [] = refl
  head?-take (x ∷ xs) = refl

  Elem-take : (n : ℕ) (a : A) (xs : List A) → Elem a (take n xs) → Elem a xs
  Elem-take zero a xs m = absurd m
  Elem-take (suc n) a [] m = m
  Elem-take (suc n) a (x ∷ xs) (inl e) = inl e
  Elem-take (suc n) a (x ∷ xs) (inr m) = inr (Elem-take n a xs m)

  Elem-drop : (n : ℕ) (a : A) (xs : List A) → Elem a (drop n xs) → Elem a xs
  Elem-drop zero a xs m = m
  Elem-drop (suc n) a [] m = m
  Elem-drop (suc n) a (x ∷ xs) m = inr (Elem-drop n a xs m)

  Elem-append : (a : A) (xs ys : List A) → Elem a ys → Elem a (xs ++ ys)
  Elem-append a [] ys m = m
  Elem-append a (x ∷ xs) ys m = inr (Elem-append a xs ys m)

  -- Two lists have the same elements.
  abbrev pub SameElems : List A → List A → Type 0
  SameElems xs ys = (a : A) → Elem a xs ↔ Elem a ys

  -- The measure of every element is below those of all in front of it.
  abbrev pub IsStrict : (A → ℕ) → List A → Type 0
  IsStrict c [] = Unit
  IsStrict c (x ∷ xs) = ((y : A) → Elem y xs → c y < c x) × IsStrict c xs

  strict_tail :
      (c : A → ℕ) (x : A) (xs ys : List A) (z : A)
      → ((y : A) → Elem y xs → c y < c x)
      → Elem z xs
      → Elem z (x ∷ ys)
      → Elem z ys
  strict_tail c x xs ys z below m (inl e) =
      let low = below z m in absurd (omega (arith, subst (λ a. c a < c x) e low))
  strict_tail c x xs ys z below m (inr k) = k

  -- Two strictly descending lists with the same elements are the same list.
  pub IsStrict-unique :
      (c : A → ℕ) (xs ys : List A) → IsStrict c xs → IsStrict c ys → SameElems xs ys → xs ≡ ys
  IsStrict-unique c [] [] s t h = refl
  IsStrict-unique c [] (y ∷ ys) s t h = absurd ((h y).1 (inl refl))
  IsStrict-unique c (x ∷ xs) [] s t h = absurd ((h x).0 (inl refl))
  IsStrict-unique c (x ∷ xs) (y ∷ ys) (sx, s) (ty, t) h =
      let same : x ≡ y = elim ((h x).0 (inl refl)) [
        | inl e ↦ e
        | inr m ↦ elim ((h y).1 (inl refl)) [
          | inl e ↦ sym e
          | inr k ↦ absurd (omega (arith, ty x m, sx y k))
        ]
      ] in
      let rest = IsStrict-unique c xs ys s t (λ z. (
        λ m.
            strict_tail c x xs ys z sx m
              (subst (λ a. Elem z (a ∷ ys)) (sym same) ((h z).0 (inr m))),
        λ k. strict_tail c y ys xs z ty k (subst (λ a. Elem z (a ∷ xs)) same ((h z).1 (inr k))),
      )) in
      ap (λ a. a ∷ xs) same ∙ ap (λ l. y ∷ l) rest

  pub length-append : (xs ys : List A) → length (xs ++ ys) ≡ length xs + length ys
  length-append [] ys = omega arith
  length-append (x ∷ xs) ys = omega (arith, length-append xs ys)

module _ {A B : Type 0} (f : A → B) where
  pub Elem-map : (a : A) (xs : List A) → Elem a xs → Elem (f a) (map f xs)
  Elem-map a [] m = absurd m
  Elem-map a (x ∷ xs) (inl e) = inl (ap f e)
  Elem-map a (x ∷ xs) (inr m) = inr (Elem-map a xs m)

  pub Elem-map_inv : (b : B) (xs : List A) → Elem b (map f xs) → (a : A) × Elem a xs × (b ≡ f a)
  Elem-map_inv b [] m = absurd m
  Elem-map_inv b (x ∷ xs) (inl e) = (x, inl refl, e)
  Elem-map_inv b (x ∷ xs) (inr m) = let (a, n, e) = Elem-map_inv b xs m in (a, inr n, e)

  pub length-map : (xs : List A) → length (map f xs) ≡ length xs
  length-map [] = refl
  length-map (x ∷ xs) = ap suc (length-map xs)

-- The element is kept if the test passed.
abbrev pub keep {ℓ} : {A : Type ℓ} → Bool → A → List A → List A
keep true x xs = x ∷ xs
keep false x xs = xs

module _ {A : Type 0} (p : A → Bool) where
  abbrev pub filter : List A → List A
  filter [] = []
  filter (x ∷ xs) = keep (p x) x (filter xs)

  Elem-keep : (b : Bool) (a x : A) (xs : List A) → Elem a xs → Elem a (keep b x xs)
  Elem-keep true a x xs m = inr m
  Elem-keep false a x xs m = m

  pub Elem-filter : (a : A) (xs : List A) → Elem a xs → p a ≡ true → Elem a (filter xs)
  Elem-filter a [] m h = absurd m
  Elem-filter a (x ∷ xs) (inl e) h = rw (rw e at h) (inl e)
  Elem-filter a (x ∷ xs) (inr m) h = Elem-keep (p x) a x (filter xs) (Elem-filter a xs m h)

  Elem-keep_inv :
      (b : Bool) (a x : A) (xs : List A) → Elem a (keep b x xs) → ((a ≡ x) × (b ≡ true)) ⊎ Elem a xs
  Elem-keep_inv true a x xs (inl e) = inl (e, refl)
  Elem-keep_inv true a x xs (inr m) = inr m
  Elem-keep_inv false a x xs m = inr m

  pub Elem-filter_inv : (a : A) (xs : List A) → Elem a (filter xs) → Elem a xs × (p a ≡ true)
  Elem-filter_inv a [] m = absurd m
  Elem-filter_inv a (x ∷ xs) m = elim (Elem-keep_inv (p x) a x (filter xs) m) [
    | inl (e, t) ↦ (inl e, rw e t)
    | inr n ↦ let (k, t) = Elem-filter_inv a xs n in (inr k, t)
  ]

module _ {A : Type 0} where
  abbrev pub All : (A → Type 0) → List A → Type 0
  All P [] = Unit
  All P (x ∷ xs) = P x × All P xs

  pub All-intro : (P : A → Type 0) (xs : List A) → ((x : A) → Elem x xs → P x) → All P xs
  All-intro P [] h = tt
  All-intro P (x ∷ xs) h = (h x (inl refl), All-intro P xs (λ y m. h y (inr m)))

  pub All-append : (P : A → Type 0) (xs ys : List A) → All P xs → All P ys → All P (xs ++ ys)
  All-append P [] ys hx hy = hy
  All-append P (x ∷ xs) ys hx hy = (hx.0, All-append P xs ys hx.1 hy)

  pub All_elem : (P : A → Type 0) (a : A) (xs : List A) → All P xs → Elem a xs → P a
  All_elem P a [] h m = absurd m
  All_elem P a (x ∷ xs) h (inl e) = rw e h.0
  All_elem P a (x ∷ xs) h (inr m) = All_elem P a xs h.1 m

  -- The column falls along the list: the newest row comes first.
  abbrev pub IsDescending : (A → ℕ) → List A → Type 0
  IsDescending c [] = Unit
  IsDescending c (x ∷ xs) = All (λ y. c y ≤ c x) xs × IsDescending c xs
