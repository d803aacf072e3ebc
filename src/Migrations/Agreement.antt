-- ===== src/Migrations/Agreement.antt =====
-- The columns that the chain of revisions leaves against those that the models declare.
use z_apply_backend.Base.{
  ℕ, String, ◌≡◌, refl, sym, ◌∙◌, subst, inl, inr, Bool, not, Option, none, some, List, [], ◌∷◌,
  ◌++◌, ◌==◌, str_eq, eq_iff, select, map, Bool-cases, Option-cases, if◌then◌else◌,
}
use z_apply_backend.Migrations.{
  TableName, runs, run_events, human_requests, artifacts, model_calls, ColumnType, Column,
  Operation, create_table, add_column, drop_column, create_foreign_key,
}
use z_apply_backend.Migrations.Declared.{declared}
use z_apply_backend.Migrations.Later.{Revision, upgrade, history}

abbrev number : TableName → ℕ
number runs = 0
number run_events = 1
number human_requests = 2
number artifacts = 3
number model_calls = 4

abbrev same_table : TableName → TableName → Bool
same_table t u = number t == number u

-- What the operations say of the columns of a table. A foreign key that is made by name is one of
-- its column.
abbrev set_key : String → TableName → Column → Column
set_key name target c = if str_eq c.name name then record c { foreign_key = some target } else c

abbrev described_step : TableName → Operation → List Column → List Column
described_step t (create_table u columns unique) old = if same_table u t then columns else old
described_step t (add_column u c) old = if same_table u t then old ++ c ∷ [] else old
described_step t (drop_column u name) old =
    if same_table u t then select (λ c. not (str_eq c.name name)) old else old
described_step t (create_foreign_key name u target column) old =
    if same_table u t then map (set_key column target) old else old
described_step t _ old = old

abbrev described : TableName → List Operation → List Column → List Column
described t [] old = old
described t (op ∷ ops) old = described t ops (described_step t op old)

abbrev pub migrated : TableName → List Revision → List Column → List Column
migrated t [] old = old
migrated t (r ∷ rs) old = migrated t rs (described t (upgrade r) old)

-- A column without its default and its ON DELETE clause.
pub record Shape : Type 0 where
  pub kind : ColumnType
  pub nullable : Bool
  pub primary_key : Bool
  pub foreign_key : Option TableName

abbrev pub shape_of : String → List Column → Option Shape
shape_of name [] = none
shape_of name (c ∷ columns) =
    if str_eq c.name name
    then some (record {
      kind = c.kind;
      nullable = c.nullable;
      primary_key = c.primary_key;
      foreign_key = c.foreign_key;
    })
    else shape_of name columns

-- Each column of `xs` has in `ys` the shape that it has in `whole`.
abbrev shapes : List Column → List Column → List (Option Shape)
shapes xs ys = map (λ c. shape_of c.name ys) xs

module _ {x y : Option Shape} {xs ys : List (Option Shape)} (e : x ∷ xs ≡ y ∷ ys) where
  head : x ≡ y
  head = cc

  tail : xs ≡ ys
  tail = cc

find-name :
    (name : String) (xs : List Column) (s : Shape)
    → shape_of name xs ≡ some s
    → (whole ys : List Column) → shapes xs ys ≡ shapes xs whole
    → shape_of name ys ≡ shape_of name whole
find-name name [] s e whole ys w = cc
find-name name (c ∷ xs) s e whole ys w = elim (Bool-cases (str_eq c.name name)) [
  | inl same ↦ subst (λ n. shape_of n ys ≡ shape_of n whole) ((eq_iff c.name name).0 same) (head w)
  | inr other ↦ find-name name xs s (rw other at e) whole ys (tail w)
]

shape_of-eq :
    (xs ys : List Column)
    → shapes xs ys ≡ shapes xs xs
    → shapes ys xs ≡ shapes ys ys
    → (name : String) → shape_of name xs ≡ shape_of name ys
shape_of-eq xs ys p q name = elim (Option-cases (shape_of name xs)) [
  | inr (s, e) ↦ sym (find-name name xs s e xs ys p)
  | inl absent ↦ elim (Option-cases (shape_of name ys)) [
    | inl also ↦ absent ∙ sym also
    | inr (s, e) ↦ find-name name ys s e ys xs q
  ]
]

-- The nine revisions give each table the columns that the models declare for it, and no other: under
-- every name the two agree on the type, the NULL constraint, the primary key and the table of the
-- foreign key.
pub migrated-declared :
    (t : TableName) (name : String)
    → shape_of name (migrated t history []) ≡ shape_of name (declared t)
unfolding upgrade history declared
migrated-declared runs = shape_of-eq (migrated runs history []) (declared runs) refl refl
migrated-declared run_events =
    shape_of-eq (migrated run_events history []) (declared run_events) refl refl
migrated-declared human_requests =
    shape_of-eq (migrated human_requests history []) (declared human_requests) refl refl
migrated-declared artifacts =
    shape_of-eq (migrated artifacts history []) (declared artifacts) refl refl
migrated-declared model_calls =
    shape_of-eq (migrated model_calls history []) (declared model_calls) refl refl
