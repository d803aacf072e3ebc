-- ===== src/Migrations.antt =====
-- alembic/versions: the operations that each revision runs on the schema, and the columns that
-- persistence/models.py declares.
pub mod Initial
pub mod Later
pub mod Declared
pub mod Reversible
pub mod Agreement
mod Tests
use z_apply_backend.Base.{ℕ, String, Bool, true, false, Option, none, some, List}

pub data TableName : Type 0 where
  runs run_events human_requests artifacts model_calls : TableName

-- The SQL types of the columns; a `varchar` has its length.
pub data ColumnType : Type 0 where
  uuid text integer bigint timestamptz jsonb boolean double : ColumnType
  varchar : ℕ → ColumnType

-- sa.Column; `foreign_key` is the table whose `id` it refers to, `cascades` says that it does so with
-- ON DELETE CASCADE, and `server_default` is the text of the default expression. A key of an integer
-- type is filled from a sequence.
pub record Column : Type 0 where
  pub name : String
  pub kind : ColumnType
  pub nullable : Bool
  pub primary_key : Bool
  pub foreign_key : Option TableName
  pub cascades : Bool
  pub server_default : Option String

-- sa.Column(name, kind, nullable=False), sa.Column(name, kind), and the columns with one more trait
abbrev pub required : String → ColumnType → Column
required name kind = record {
  name = name;
  kind = kind;
  nullable = false;
  primary_key = false;
  foreign_key = none;
  cascades = false;
  server_default = none;
}

abbrev pub optional : String → ColumnType → Column
optional name kind = record (required name kind) { nullable = true }

abbrev pub key : String → ColumnType → Column
key name kind = record (required name kind) { primary_key = true }

abbrev pub refers : String → TableName → Column
refers name target = record (required name uuid) { foreign_key = some target }

abbrev pub defaulted : String → ColumnType → String → Column
defaulted name kind expression = record (required name kind) { server_default = some expression }

-- The calls of `alembic.op`; a table has its columns and the columns of its named unique constraint.
pub data Operation : Type 0 where
  create_table : TableName → List Column → Option (String × List String) → Operation
  drop_table : TableName → Operation
  create_index : String → TableName → List String → Operation
  drop_index : String → TableName → Operation
  add_column : TableName → Column → Operation
  drop_column : TableName → String → Operation
  set_default : TableName → String → Option String → Operation
  create_foreign_key : String → TableName → TableName → String → Operation
  drop_constraint : String → TableName → Operation
