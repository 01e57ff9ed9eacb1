-- ===== src/Examples/ListTable.antt =====
-- A table engine on lists: a witness that the laws of `SqlTable` can hold together.
pub mod Rows
use Prim.Native.String
use file_processing_platform.Common.{
  ℕ, suc, ◌≤◌, String, ◌≡◌, refl, sym, ap, ◌∙◌, ◌≢◌, Bool, true, false, ◌&&◌, Option, none, some,
  List, [], ◌∷◌, ◌==◌, ◌↔◌, eq_iff, eq_false, eq_self, map, arith, if◌then◌else◌, keep_if, map_some,
  Option-cases, inl, inr, leb, Bool-cases,
}
use file_processing_platform.Common.Lists.{
  Elem, All, filter, keep, length, IsDescending, SameElems, Elem-filter, Elem-filter_inv,
}
use file_processing_platform.Db.Sql.{SqlTable}
use Rows.{
  find, Distinct, NotIn, fresh_key, find-fresh_key, NotIn-of_find, find-key, find-Elem, Elem-find,
  Distinct-filter, find-filter, sort_desc, Elem-sort_desc, Elem-sort_desc_inv, length-sort_desc,
  sort_desc-IsDescending, rekeyed, Distinct-map-rekeyed, find-map-rekeyed, length-filter-filter-le,
}

pub record ListTable (R : Type 0) (key : R → String) : Type 0 where
  pub rows : List R
  pub distinct : Distinct key rows

-- The characters of a text.
abbrev pub length_of : String → ℕ
length_of String.[] = 0
length_of (String.◌∷◌ c rest) = suc (length_of rest)

length-keep :
    {R : Type 0} (b : Bool) (x : R) (xs : List R)
    → length (keep b x xs) ≡ (if b then suc (length xs) else length xs)
length-keep true x xs = refl
length-keep false x xs = refl

module _ {R : Type 0} (key : R → String) where
  unfoldable pub add :
      (r : R) (t : ListTable R key) (o : Option R) → find key t.rows (key r) ≡ o → ListTable R key
  add r t none e = record {
    rows = r ∷ t.rows;
    distinct = (NotIn-of_find key t.rows (key r) e, t.distinct);
  }
  add r t (some _) e = t

  rows-add :
      (r : R) (t : ListTable R key) (o : Option R) (e : find key t.rows (key r) ≡ o)
      → o ≡ none
      → (add r t o e).rows ≡ r ∷ t.rows
  unfolding add
  rows-add r t none e h = refl
  rows-add r t (some _) e h = absurd (cc)

  rows-insert :
      (b : String → R) (t : ListTable R key)
      → key (b (fresh_key key t.rows)) ≡ fresh_key key t.rows
      → (add
          (b (fresh_key key t.rows))
          t
          (find key t.rows (key (b (fresh_key key t.rows))))
          refl).rows
        ≡ b (fresh_key key t.rows) ∷ t.rows
  rows-insert b t keyed =
      rows-add (b (fresh_key key t.rows)) t _ refl (rw keyed (find-fresh_key key t.rows))

  pub Elem-rows :
      (p : R → Bool) (t : ListTable R key) (r : R)
      → Elem r (filter p t.rows) ↔ ((find key t.rows (key r) ≡ some r) × (p r ≡ true))
  Elem-rows p t r = (
    λ m.
        let (n, passes) = Elem-filter_inv p r t.rows m in
        (Elem-find key t.rows r t.distinct n, passes),
    λ h. Elem-filter p r t.rows (find-Elem key t.rows (key r) r h.0) h.1,
  )

  pub find-key-own :
      (t : ListTable R key) (k : String) (r : R) → find key t.rows k ≡ some r → key r ≡ k
  find-key-own t k r h = find-key key t.rows k r h

  pub row-added :
      (b : String → R) (t : ListTable R key) (k : String)
      → key (b (fresh_key key t.rows)) ≡ fresh_key key t.rows
      → find key
          (add
            (b (fresh_key key t.rows))
            t
            (find key t.rows (key (b (fresh_key key t.rows))))
            refl).rows
          k
        ≡ (if fresh_key key t.rows == k then some (b (fresh_key key t.rows)) else find key t.rows k)
  row-added b t k keyed = rw (rows-insert b t keyed, keyed) refl

  pub count-added :
      (p : R → Bool) (b : String → R) (t : ListTable R key)
      → key (b (fresh_key key t.rows)) ≡ fresh_key key t.rows
      → length (
          filter p
            (add
              (b (fresh_key key t.rows))
              t
              (find key t.rows (key (b (fresh_key key t.rows))))
              refl).rows)
        ≡ (if p (b (fresh_key key t.rows))
            then suc (length (filter p t.rows))
            else length (filter p t.rows))
  count-added p b t keyed =
      rw (rows-insert b t keyed)
        (length-keep (p (b (fresh_key key t.rows))) (b (fresh_key key t.rows)) (filter p t.rows))

  unfoldable pub list_table : SqlTable (ListTable R key) R key
  unfolding add
  list_table = record {
    row = λ t k. find key t.rows k;
    char_length = length_of;
    next_id = λ t. fresh_key key t.rows;
    select = λ p t. filter p t.rows;
    select_desc = λ p c l o t. sort_desc c (filter p t.rows);
    count = λ p t. length (filter p t.rows);
    insert = λ b t. (
      b (fresh_key key t.rows),
      add (b (fresh_key key t.rows)) t (find key t.rows (key (b (fresh_key key t.rows)))) refl,
    );
    update = λ p f t. (
      map f (filter p t.rows),
      record {
        rows = map (rekeyed key p f) t.rows;
        distinct = Distinct-map-rekeyed key p f t.rows t.distinct;
      },
    );
    delete = λ p t. (
      filter p t.rows,
      record {
        rows = filter (λ r. if p r then false else true) t.rows;
        distinct = Distinct-filter key (λ r. if p r then false else true) t.rows t.distinct;
      },
    );
    row_key = find-key-own;
    row-next_id = λ t. find-fresh_key key t.rows;
    Elem-select = Elem-rows;
    Elem-select_desc = λ p c l o t r.
        (Elem-sort_desc_inv c r (filter p t.rows), Elem-sort_desc c r (filter p t.rows));
    select_desc-IsDescending = λ p c l o t. sort_desc-IsDescending c (filter p t.rows);
    count-select_desc = λ p c l o t. sym (length-sort_desc c (filter p t.rows));
    count-select = λ p t. refl;
    insert_returning = λ b t. refl;
    row-insert = row-added;
    count-insert = count-added;
    count-delete = λ p q t. length-filter-filter-le p (λ r. if q r then false else true) t.rows;
    update_returning = λ p f t r. (λ m. m, λ m. m);
    row-update = λ p f t k h. find-map-rekeyed key p f t.rows k h;
    delete_returning = λ p t r. (λ m. m, λ m. m);
    row-delete = λ p t k. find-filter key (λ r. if p r then false else true) t.rows k t.distinct;
  }
