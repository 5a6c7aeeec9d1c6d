-- ===== src/Sql.antt =====
-- What the models and the migration say of a table, as SQLAlchemy's `Column`, `Index` and constraints
-- say it. Comments on columns are left out.
pub mod Models
pub mod Ddl
pub mod Migration
pub mod Rows
mod Tests
use daraja_payment_wrapper.Prelude.{ℕ, Text, Bool, Option, List}

pub data ColumnType : Type 0 where
  sql_uuid sql_text sql_integer sql_datetime : ColumnType
  sql_string : (length : ℕ) → ColumnType
  sql_numeric : (precision scale : ℕ) → ColumnType

pub record Column : Type 0 where
  pub name : Text
  pub type : ColumnType
  pub nullable : Bool
  pub server_default : Option Text

-- `column > 0`, and `column IS NULL OR column > 0`
pub data Condition : Type 0 where
  is_positive : Text → Condition
  is_null_or_positive : Text → Condition

pub record CheckConstraint : Type 0 where
  pub name : Text
  pub condition : Condition

pub record Table : Type 0 where
  pub columns : List Column
  pub primary_key : List Text
  -- the columns that are unique, each alone
  pub uniques : List Text
  pub checks : List CheckConstraint

-- Tables and indexes share the names of a PostgreSQL schema.
pub data Relation : Type 0 where
  table : Table → Relation
  index : (on : Text) → (columns : List Text) → Relation
