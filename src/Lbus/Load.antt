-- ===== src/Lbus/Load.antt =====
-- `lbus_createCmd` with `getNewId`, and `lbus_load` of lbus.c, which puts the commands of the
-- database that are not handled on the bus. The mutex and the log are left out.
pub mod Rows
use lielas.Base.{
  ℕ, suc, ◌+◌, Bool, true, false, not, ◌&&◌, Option, none, some, List, [], ◌∷◌, Bytes, ◌==◌,
  if◌then◌else◌, ltb, length, ℤ, pos, ltb_ℤ, pos_part, Run, done, fault, ◌>>=◌,
}
use lielas.Lbus.Queue.{Ptr, Cmd, Bus, add}

-- A row that is not handled: the texts of its columns, and the id as `atoi` reads it.
pub record Row : Type 0 where
  pub id : ℤ
  pub tmrecv : Bytes
  pub user : Bytes
  pub address : Bytes
  pub cmd : Bytes
  pub payload : Bytes
  pub tmnexthandle : Bytes

-- The statements on the table of commands: `unhandled` is none where it fails, and `last_id` where
-- there is no row.
pub record LbusTable : Type 1 where
  pub Db : Type 0
  pub table_exists : Db → Bool
  pub create_table : Db → Db
  pub last_id : Db → Option ℕ
  pub insert_id : ℕ → Db → Db
  pub delete_id : ℕ → Db → Db
  pub unhandled : Db → Option (List Row)

-- What `malloc` returns for a row: whether there is room for the command that is read and for its
-- time, and what `lbus_add` gets.
pub record RowMemory : Type 0 where
  pub has_cmd : Bool
  pub has_time : Bool
  pub new_cmd : Option Ptr
  pub new_con : Option Ptr

-- The sizes of the buffers.
abbrev pub address_size : ℕ
address_size = 100

abbrev pub user_size : ℕ
user_size = 200

abbrev pub cmd_text_size : ℕ
cmd_text_size = 1000

abbrev pub time_size : ℕ
time_size = 50

-- The texts fit the buffers that `strcpy` copies them into.
unfoldable pub fits : Row → Bool
fits r =
    ltb (length r.tmrecv) time_size
    && ltb (length r.user) user_size
    && ltb (length r.address) address_size
    && ltb (length r.cmd) cmd_text_size
    && ltb (length r.payload) cmd_text_size
    && ltb (length r.tmnexthandle) time_size

abbrev pub is_empty : Bytes → Bool
is_empty [] = true
is_empty (c ∷ s) = false

module _ (t : LbusTable) where
  -- `getNewId`: 0 where the table is missing and cannot be made.
  unfoldable pub get_new_id : t.Db → ℕ × t.Db
  get_new_id d =
      let made = t.create_table d in
      let next : ℕ = (elim (t.last_id d) [ none ↦ 1 | some i ↦ suc i ]) in
      if t.table_exists d
      then (next, t.insert_id next d)
      else if t.table_exists made
      then (1, t.insert_id 1 made)
      else (0, made)

module _ (t : LbusTable) {Time : Type 0} (strptime : Bytes → Time) where
  -- `fresh` is the memory that `malloc` gives, with what its members held.
  unfoldable pub create_cmd :
      (allocated : Bool) → ℕ → (fresh : Cmd Time) → t.Db → Option (Cmd Time) × t.Db
  create_cmd allocated id fresh d =
      let (new_id, d') = get_new_id t d in
      let blank = record fresh {
        handled = false;
        address = [];
        cmd = [];
        payload = [];
        tmnexthandle = none;
      } in
      if not allocated
      then (none, d)
      else if id == 0
      then (if new_id == 0 then (none, d') else (some (record blank { id = new_id }), d'))
      else (some (record blank { id = id }), d)

  -- The command of a row, in what `lbus_createCmd` gives.
  unfoldable pub read_row : Row → Cmd Time → Cmd Time
  read_row r c = record c {
    tmrecv = strptime r.tmrecv;
    user = r.user;
    address = r.address;
    cmd = r.cmd;
    payload = r.payload;
    tmnexthandle = if is_empty r.tmnexthandle then none else some (strptime r.tmnexthandle);
    handled = false;
  }

  -- What is done with the command that `lbus_createCmd` gives. The Boolean is true where -1 is
  -- returned. The result of `lbus_add` is not used.
  unfoldable pub place_row :
      RowMemory → Row → Bus Time → Option (Cmd Time) → t.Db → Run (Bool × Bus Time × t.Db)
  place_row m r s none d = done (true, s, d)
  place_row m r s (some c) d =
      if not (fits r)
      then fault
      else if not (is_empty r.tmnexthandle) && not m.has_time
      then done (true, s, d)
      else if is_empty r.cmd
      then done (false, s, t.delete_id (pos_part r.id) d)
      else (add m.new_cmd m.new_con (read_row r c) false s >>= λ (_, s'). done (false, s', d))

  unfoldable pub load_row :
      RowMemory → (fresh : Cmd Time) → Row → Bus Time → t.Db → Run (Bool × Bus Time × t.Db)
  load_row m fresh r s d =
      let (created, d₁) = create_cmd m.has_cmd (pos_part r.id) fresh d in
      if ltb_ℤ (pos 0) r.id then place_row m r s created d₁ else done (true, s, d)

  unfoldable pub load_rows :
      (fresh : Cmd Time) → List (RowMemory × Row) → Bus Time → t.Db → Run (Bool × Bus Time × t.Db)
  load_rows fresh [] s d = done (false, s, d)
  load_rows fresh ((m, r) ∷ rows) s d = load_row m fresh r s d >>= λ (failed, s', d').
      if failed then done (true, s', d') else load_rows fresh rows s' d'

  -- The memory of each row.
  abbrev pub with_memory : (ℕ → RowMemory) → ℕ → List Row → List (RowMemory × Row)
  with_memory memory i [] = []
  with_memory memory i (r ∷ rows) = (memory i, r) ∷ with_memory memory (suc i) rows

  unfoldable pub lbus_load :
      (memory : ℕ → RowMemory) → (fresh : Cmd Time) → Bus Time → t.Db → Run (Bool × Bus Time × t.Db)
  lbus_load memory fresh s d = elim (t.unhandled d) [
    | none ↦ done (true, s, d)
    | some rows ↦ load_rows fresh (with_memory memory 0 rows) s d
  ]
