-- ===== src/Lbus/Load/Rows.antt =====
-- Loading the rows is adding their commands.
use lielas.Base.{
  ℕ, suc, ◌≡◌, refl, true, false, not, ◌&&◌, Bool-cases, Run-cases, inl, inr, none, some, List, [],
  ◌∷◌, Bytes, ◌==◌, if◌then◌else◌, arith, pos, ltb_ℤ, pos_part, Run, done, ◌>>=◌,
}
use lielas.Lbus.Queue.{Cmd, Bus, add}
use lielas.Lbus.Load.{
  Row, LbusTable, RowMemory, fits, is_empty, create_cmd, read_row, place_row, load_row, load_rows,
  with_memory, lbus_load,
}

module _ (t : LbusTable) {Time : Type 0} (strptime : Bytes → Time) where
  -- The id is positive, the texts fit their buffers, and there is memory for what is read.
  pub record IsLoadable (m : RowMemory) (r : Row) : Type 0 where
    pub id : ℕ
    pub positive : r.id ≡ pos (suc id)
    pub short : fits r ≡ true
    pub has_cmd : m.has_cmd ≡ true
    pub has_time : m.has_time ≡ true

  abbrev pub AreLoadable : (ℕ → RowMemory) → ℕ → List Row → Type 0
  AreLoadable memory i [] = Unit
  AreLoadable memory i (r ∷ rows) = IsLoadable (memory i) r × AreLoadable memory (suc i) rows

  -- The command that a row stands for.
  abbrev pub command_of : (fresh : Cmd Time) → Row → Cmd Time
  command_of fresh r = record {
    id = pos_part r.id;
    tmrecv = strptime r.tmrecv;
    address = r.address;
    user = r.user;
    cmd = r.cmd;
    payload = r.payload;
    handled = false;
    tmnexthandle = if is_empty r.tmnexthandle then none else some (strptime r.tmnexthandle);
    tmhandled = fresh.tmhandled;
  }

  -- The commands of the rows that name one are added in their order, without saving them.
  abbrev pub add_commands :
      (ℕ → RowMemory) → (fresh : Cmd Time) → ℕ → List Row → Bus Time → Run (Bus Time)
  add_commands memory fresh i [] s = done s
  add_commands memory fresh i (r ∷ rows) s =
      let here =
        (add (memory i).new_cmd (memory i).new_con (command_of fresh r) false s >>= λ (_, s').
        add_commands memory fresh (suc i) rows s') in
      if is_empty r.cmd then add_commands memory fresh (suc i) rows s else here

  -- The rows that name no command are deleted.
  abbrev pub delete_empty : List Row → t.Db → t.Db
  delete_empty [] d = d
  delete_empty (r ∷ rows) d =
      delete_empty rows (if is_empty r.cmd then t.delete_id (pos_part r.id) d else d)

  create_cmd-row :
      (m : RowMemory) (fresh : Cmd Time) (r : Row) (d : t.Db)
      → IsLoadable m r
      → create_cmd t strptime m.has_cmd (pos_part r.id) fresh d ≡ (
        some (record fresh {
          id = pos_part r.id;
          handled = false;
          address = [];
          cmd = [];
          payload = [];
          tmnexthandle = none;
        }),
        d,
      )
  unfolding create_cmd
  create_cmd-row m fresh r d h =
      let named : (pos_part r.id == 0) ≡ false = rw h.positive (ground arith) in
      rw (h.has_cmd, named) refl

  load_row-add :
      (m : RowMemory) (fresh : Cmd Time) (r : Row) (s : Bus Time) (d : t.Db)
      → IsLoadable m r
      → load_row t strptime m fresh r s d ≡ (
          if is_empty r.cmd
          then done (false, s, t.delete_id (pos_part r.id) d)
          else (add m.new_cmd m.new_con (command_of fresh r) false s >>= λ (_, s').
              done (false, s', d)))
  unfolding load_row place_row read_row
  load_row-add m fresh r s d h =
      let known : ltb_ℤ (pos 0) r.id ≡ true = rw h.positive (ground arith) in
      let timed : (not (is_empty r.tmnexthandle) && not m.has_time) ≡ false =
        elim (Bool-cases (is_empty r.tmnexthandle)) [
          | inl e ↦ rw e refl
          | inr e ↦ rw (e, h.has_time) refl
        ] in
      rw (create_cmd-row m fresh r d h, known, h.short, timed) refl

  load_rows-add :
      (memory : ℕ → RowMemory) (i : ℕ) (fresh : Cmd Time) (rows : List Row) (s : Bus Time)
      (d : t.Db)
      → AreLoadable memory i rows
      → load_rows t strptime fresh (with_memory t strptime memory i rows) s d
        ≡ (add_commands memory fresh i rows s >>= λ s'. done (false, s', delete_empty rows d))
  unfolding load_rows
  load_rows-add memory i fresh [] s d h = refl
  load_rows-add memory i fresh (r ∷ rows) s d h = elim (Bool-cases (is_empty r.cmd)) [
    | inl e ↦
        rw (load_row-add (memory i) fresh r s d h.0, e)
          (load_rows-add memory (suc i) fresh rows s (t.delete_id (pos_part r.id) d) h.1)
    | inr e ↦
        rw (load_row-add (memory i) fresh r s d h.0, e)
          (elim (Run-cases
            (add (memory i).new_cmd (memory i).new_con (command_of fresh r) false s)) [
              | inl bad ↦ rw bad refl
              | inr (inl bad) ↦ rw bad refl
              | inr (inr ((failed, s'), ran)) ↦
                  rw ran (load_rows-add memory (suc i) fresh rows s' d h.1)
            ])
  ]

  -- `lbus_load` does what adding the commands of the rows that name one does, in the order of the
  -- rows and without saving them, and deletes the other rows; it returns 0. Every row has a
  -- positive id and texts that fit their buffers, and there is memory for what is read.
  pub lbus_load-add :
      (memory : ℕ → RowMemory) (fresh : Cmd Time) (rows : List Row) (s : Bus Time) (d : t.Db)
      → t.unhandled d ≡ some rows
      → AreLoadable memory 0 rows
      → lbus_load t strptime memory fresh s d
        ≡ (add_commands memory fresh 0 rows s >>= λ s'. done (false, s', delete_empty rows d))
  unfolding lbus_load
  lbus_load-add memory fresh rows s d read h =
      rw (read, lbus_load) (load_rows-add memory 0 fresh rows s d h)
