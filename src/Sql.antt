-- ===== src/Sql.antt =====
-- The SQL statements of the gateway and the tests for tables, columns and cells of
-- liegw/src/sql/sql.c. The server behind `PQexec` is a parameter; a statement is modelled by its
-- parts, and its text fits the buffer that it is printed into. The connection and the log are left
-- out.
use lielas.Base.{
  ℕ, zero, suc, Bool, true, false, Option, none, some, List, [], ◌∷◌, Bytes, if◌then◌else◌, str_eq,
}

-- How a value stands in the text: in single quotes, as a number, or in double quotes, which SQL reads
-- as the name of a column.
pub data Value : Type 0 where
  text number name : Bytes → Value

-- The tables are those of the schema `lielas`, and ids are the texts behind `WHERE id=`.
pub data Statement : Type 0 where
  -- `SELECT relname FROM pg_class WHERE relname='…'`
  relname : (table : Bytes) → Statement
  -- `CREATE TABLE … content`
  create : (table content : Bytes) → Statement
  -- `DROP TABLE …`
  drop : (table : Bytes) → Statement
  -- `SELECT * FROM … LIMIT 1`
  first_row : (table : Bytes) → Statement
  -- `SELECT "column" FROM … WHERE "column"='…'`
  cell : (table column value : Bytes) → Statement
  -- `SELECT column_name FROM information_schema.columns WHERE …`
  column_name : (table column : Bytes) → Statement
  -- `SELECT id FROM … ORDER BY id DESC LIMIT 1`
  last_id : (table : Bytes) → Statement
  -- `SELECT … FROM …`
  select_all : (columns : List Bytes) → (table : Bytes) → Statement
  -- `SELECT … FROM … WHERE id=…`
  select : (columns : List Bytes) → (table id : Bytes) → Statement
  -- `INSERT INTO … (…) VALUES (…)`
  insert : (table : Bytes) → List (Bytes × Value) → Statement
  -- `UPDATE … SET column=… WHERE id=…`
  update : (table column : Bytes) → Value → (id : Bytes) → Statement

-- A result: the names of the columns and the rows, a success without rows, or an error; `PQgetvalue`
-- gives the empty text for a cell without a value. `missing` is the null pointer that `SQLexec` gives
-- without a connection, and `PQresultStatus` of it is an error too.
pub data Answer : Type 0 where
  tuples : (columns : List Bytes) → (rows : List (List Bytes)) → Answer
  command_ok failed missing : Answer

-- Whether a statement gave the null pointer.
abbrev pub is_missing : Answer → Bool
is_missing missing = true
is_missing _ = false

pub record Server : Type 1 where
  pub Db : Type 0
  pub exec : Statement → Db → Answer × Db

-- The first place of a column, as `PQfnumber` counts.
unfoldable pub fnumber : Bytes → List Bytes → Option ℕ
fnumber c [] = none
fnumber c (d ∷ ds) =
    let later = fnumber c ds in
    if str_eq c d then some 0 else elim later [ none ↦ none | some i ↦ some (suc i) ]

-- Whether the first column of a row has this text.
unfoldable pub row_is : Bytes → List Bytes → Bool
row_is t [] = false
row_is t (c ∷ cs) = str_eq c t

unfoldable pub any_row : Bytes → List (List Bytes) → Bool
any_row t [] = false
any_row t (r ∷ rs) = let later = any_row t rs in if row_is t r then true else later

-- Whether it is the first column of the first row.
unfoldable pub first_is : Bytes → List (List Bytes) → Bool
first_is t [] = false
first_is t (r ∷ rs) = row_is t r

module _ (v : Server) where
  -- `SQLTableExists`, whatever the schema of the table. True where -1 is returned, here and below.
  unfoldable pub table_missing : Bytes → v.Db → Bool × v.Db
  table_missing t d =
      let (a, d') = v.exec (relname t) d in
      elim a [
        | tuples cs rows ↦ (if any_row t rows then false else true, d')
        | command_ok ↦ (true, d')
        | failed ↦ (true, d')
        | missing ↦ (true, d')
      ]

  -- `SQLRowExists`, which looks for a column; the first column counts as missing.
  unfoldable pub row_missing : (table row : Bytes) → v.Db → Bool × v.Db
  row_missing t row d =
      let (a, d') = v.exec (first_row t) d in
      elim a [
        | tuples cs rows ↦ elim (fnumber row cs) [
          | none ↦ (true, d')
          | some i ↦ elim i [ zero ↦ (true, d') | suc j ↦ (false, d') ]
        ]
        | command_ok ↦ (true, d')
        | failed ↦ (true, d')
        | missing ↦ (true, d')
      ]

  -- `SQLCellExists`
  unfoldable pub cell_missing : (table column value : Bytes) → v.Db → Bool × v.Db
  cell_missing t c val d =
      let (a, d') = v.exec (cell t c val) d in
      elim a [
        | tuples cs rows ↦ (if first_is val rows then false else true, d')
        | command_ok ↦ (true, d')
        | failed ↦ (true, d')
        | missing ↦ (true, d')
      ]

  -- `SQLColumnExists`
  unfoldable pub column_missing : (table column : Bytes) → v.Db → Bool × v.Db
  column_missing t c d =
      let (a, d') = v.exec (column_name t c) d in
      elim a [
        | tuples cs rows ↦ (if first_is c rows then false else true, d')
        | command_ok ↦ (true, d')
        | failed ↦ (true, d')
        | missing ↦ (true, d')
      ]
