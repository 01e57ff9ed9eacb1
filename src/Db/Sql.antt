-- ===== src/Db/Sql.antt =====
-- What the repositories use of drizzle-orm and PostgreSQL, for one table: a parameter of the
-- development. A table maps primary keys to rows. `select`, `update` and `delete` take the
-- condition of the `where` clause; a query without `order by` promises no order, so the laws speak
-- of the elements of a result.
pub mod Lookup
use file_processing_platform.Common.{
  ℕ, suc, ◌≤◌, String, ◌≡◌, ◌↔◌, Bool, true, false, Option, none, some, List, map, ◌==◌,
  if◌then◌else◌, keep_if, map_some,
}
use file_processing_platform.Common.Lists.{Elem, SameElems, IsDescending, length}

pub record SqlTable (T R : Type 0) (key : R → String) : Type 0 where
  -- the row with a primary key
  pub row : T → String → Option R
  -- the characters of a text, which `varchar(n)` bounds
  pub char_length : String → ℕ
  -- `defaultRandom()`: the key that the next insert draws
  pub next_id : T → String
  -- `select().from(t).where(p)`
  pub select : (R → Bool) → T → List R
  -- the order in which `select().from(t).where(p).orderBy(desc(column)).limit(l).offset(o)` counts its
  -- rows: those that agree on the column may come in another one under another limit or offset
  pub select_desc : (R → Bool) → (R → ℕ) → ℕ → ℕ → T → List R
  -- `select({ value: count() }).from(t).where(p)`
  pub count : (R → Bool) → T → ℕ
  -- `insert(t).values(…).returning()`, its one row; the row is built from the key that is drawn
  pub insert : (String → R) → T → R × T
  -- `update(t).set(…).where(p).returning()`
  pub update : (R → Bool) → (R → R) → T → List R × T
  -- `delete(t).where(p).returning()`
  pub delete : (R → Bool) → T → List R × T
  pub row_key : (t : T) (k : String) (r : R) → row t k ≡ some r → key r ≡ k
  pub row-next_id : (t : T) → row t (next_id t) ≡ none
  pub Elem-select :
      (p : R → Bool) (t : T) (r : R)
      → Elem r (select p t) ↔ ((row t (key r) ≡ some r) × (p r ≡ true))
  pub Elem-select_desc :
      (p : R → Bool) (c : R → ℕ) (l o : ℕ) (t : T) → SameElems (select_desc p c l o t) (select p t)
  pub select_desc-IsDescending :
      (p : R → Bool) (c : R → ℕ) (l o : ℕ) (t : T) → IsDescending c (select_desc p c l o t)
  pub count-select_desc :
      (p : R → Bool) (c : R → ℕ) (l o : ℕ) (t : T) → count p t ≡ length (select_desc p c l o t)
  pub count-select : (p : R → Bool) (t : T) → count p t ≡ length (select p t)
  pub insert_returning : (b : String → R) (t : T) → (insert b t).0 ≡ b (next_id t)
  pub row-insert :
      (b : String → R) (t : T) (k : String)
      → key (b (next_id t)) ≡ next_id t
      → row (insert b t).1 k ≡ (if next_id t == k then some (b (next_id t)) else row t k)
  pub count-insert :
      (p : R → Bool) (b : String → R) (t : T)
      → key (b (next_id t)) ≡ next_id t
      → count p (insert b t).1 ≡ (if p (b (next_id t)) then suc (count p t) else count p t)
  pub count-delete : (p q : R → Bool) (t : T) → count p (delete q t).1 ≤ count p t
  pub update_returning :
      (p : R → Bool) (f : R → R) (t : T) → SameElems (update p f t).0 (map f (select p t))
  pub row-update :
      (p : R → Bool) (f : R → R) (t : T) (k : String)
      → ((r : R) → key (f r) ≡ key r)
      → row (update p f t).1 k ≡ map_some (λ r. if p r then f r else r) (row t k)
  pub delete_returning : (p : R → Bool) (t : T) → SameElems (delete p t).0 (select p t)
  pub row-delete :
      (p : R → Bool) (t : T) (k : String)
      → row (delete p t).1 k ≡ keep_if (λ r. if p r then false else true) (row t k)
