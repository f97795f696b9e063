-- ===== src/Handler/Scan/Steps.antt =====
-- What a scan stores in the data table.
use lielas.Base.{
  ◌≡◌, refl, true, false, ◌&&◌, Bool-cases, inl, inr, Option, some, List, [], ◌∷◌, Bytes,
  if◌then◌else◌, str_eq, texts, codes,
}
use lielas.Handler.Records.{Datapaket}
use lielas.Handler.Scan.{
  DataTable, Target, TimeText, write_value, save_packet, save_packets, save_data,
}

-- What the statements on the data table are documented to do: `cell` is the value in a column at a
-- time. A statement on a column needs it in the table.
pub record IsTable (t : DataTable) : Type 1 where
  pub cell : Bytes → Bytes → t.Db → Option Bytes
  pub HasColumn : Bytes → t.Db → Type 0
  pub row_exists_ok :
      (column : Bytes) (d : t.Db) → t.row_exists column d ≡ true → HasColumn column d
  pub add_column_ok :
      (column : Bytes) (d : t.Db)
      → HasColumn column (t.add_column column d)
        × ((n time : Bytes) → cell n time (t.add_column column d) ≡ cell n time d)
  pub insert_ok :
      (column time v : Bytes) (d : t.Db)
      → HasColumn column d
      → t.time_exists time d ≡ false
      → (n m : Bytes)
      → cell n m (t.insert column time v d)
        ≡ (if str_eq n column && str_eq m time then some v else cell n m d)
  pub update_ok :
      (column time v : Bytes) (d : t.Db)
      → HasColumn column d
      → t.time_exists time d ≡ true
      → (n m : Bytes)
      → cell n m (t.update column time v d)
        ≡ (if str_eq n column && str_eq m time then some v else cell n m d)

-- The column of a packet of the device.
abbrev pub column_of : Target → Datapaket → Bytes
column_of d dp =
    texts (d.mac ∷ codes "." ∷ d.modul_address ∷ codes "." ∷ d.channel_address dp.channel ∷ [])

module _ (t : DataTable) {Broken : Type 0} (x : TimeText Broken) where
  -- The value of the last of the packets with this column and time, or the old one.
  abbrev pub latest :
      Target → List Datapaket → (column time : Bytes) → (old : Option Bytes) → Option Bytes
  latest d [] column time old = old
  latest d (dp ∷ dps) column time old = latest d dps column time (
      if str_eq column (column_of d dp) && str_eq time (x.database_time dp.dt)
      then some dp.value
      else old)

  write_value-cell :
      (table : IsTable t) (column time v : Bytes) (db : t.Db)
      → table.HasColumn column db
      → (n m : Bytes)
      → table.cell n m (write_value t x column time v db)
        ≡ (if str_eq n column && str_eq m time then some v else table.cell n m db)
  unfolding write_value
  write_value-cell table column time v db has n m = elim (Bool-cases (t.time_exists time db)) [
    | inl e ↦ rw e (table.update_ok column time v db has e n m)
    | inr e ↦ rw e (table.insert_ok column time v db has e n m)
  ]

  save_packet-cell :
      (table : IsTable t) (d : Target) (dp : Datapaket) (db : t.Db) (column time : Bytes)
      → table.cell column time (save_packet t x d dp db) ≡ (
          if str_eq column (column_of d dp) && str_eq time (x.database_time dp.dt)
          then some dp.value
          else table.cell column time db)
  unfolding save_packet
  save_packet-cell table d dp db column time =
      let name = column_of d dp in
      let at = x.database_time dp.dt in
      let added = t.add_column name db in
      let (has, kept) = table.add_column_ok name db in
      elim (Bool-cases (t.row_exists name db)) [
        | inl e ↦
            rw e (
              write_value-cell table name at dp.value db (table.row_exists_ok name db e) column
                time)
        | inr e ↦
            rw (e, write_value-cell table name at dp.value added has column time, kept column time)
              refl
      ]

  save_packets-latest :
      (table : IsTable t) (d : Target) (dps : List Datapaket) (db : t.Db) (column time : Bytes)
      → table.cell column time (save_packets t x d dps db)
        ≡ latest d dps column time (table.cell column time db)
  unfolding save_packets
  save_packets-latest table d [] db column time = refl
  save_packets-latest table d (dp ∷ dps) db column time =
      rw
        (
          save_packets-latest table d dps (save_packet t x d dp db) column time,
          save_packet-cell table d dp db column time,
        )
        refl

  -- Saving the packets of a scan in a data table that exists returns 0, gives each cell the value
  -- of the last packet with its column and time, and leaves every other cell as it was, also where
  -- a column or a time is new.
  pub save_data-latest :
      (table : IsTable t) (d : Target) (dps : List Datapaket) (db : t.Db)
      → t.table_exists db ≡ true
      → let (failed, db') = save_data t x d dps db in
        (failed ≡ false)
        × ((column time : Bytes)
            → table.cell column time db' ≡ latest d dps column time (table.cell column time db))
  unfolding save_data
  save_data-latest table d dps db there =
      rw there (refl, λ column time. save_packets-latest table d dps db column time)
