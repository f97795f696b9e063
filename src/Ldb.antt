-- ===== src/Ldb.antt =====
-- The tables of the gateway's database: `lielas_createTables` and `lielas_deleteTable` of
-- liegw/src/lielas/ldb.c. The settings that are read and written there are in Lbus/Settings.
pub mod Created
use lielas.Base.{ℕ, Bool, true, false, List, [], ◌∷◌, Bytes, if◌then◌else◌, codes}
use lielas.Sql.{Value, text, number, Statement, create, drop, insert, Server, table_missing}

abbrev pub lbus_table : Bytes
lbus_table = codes "lbus"

abbrev pub lbus_content : Bytes
lbus_content =
    codes
      "(id integer NOT NULL, tmrecv timestamp, usr text, address text, cmd text, payload text, handled boolean, tmnexthandle timestamp, tmhandled timestamp, PRIMARY KEY(id))"

abbrev pub users_table : Bytes
users_table = codes "users"

abbrev pub users_content : Bytes
users_content =
    codes
      "(id integer NOT NULL, login text, first_name text, last_name text, usergroup text, timezone text, password text, PRIMARY KEY(id))"

abbrev pub device_groups_table : Bytes
device_groups_table = codes "device_groups"

abbrev pub device_groups_content : Bytes
device_groups_content = codes "(id integer NOT NULL, name text, PRIMARY KEY(id))"

abbrev pub user_groups_table : Bytes
user_groups_table = codes "user_groups"

abbrev pub user_groups_content : Bytes
user_groups_content =
    codes
      "(id integer NOT NULL, user_group text, delete_devices boolean, register_devices boolean, download boolean, PRIMARY KEY(id))"

abbrev pub devices_table : Bytes
devices_table = codes "devices"

abbrev pub devices_content : Bytes
devices_content =
    codes
      "(id integer NOT NULL, address text, mac text, registered boolean, name text, dev_group text, mint text, pint text, aint text, moduls text, wkc text, PRIMARY KEY(id))"

abbrev pub moduls_table : Bytes
moduls_table = codes "moduls"

abbrev pub moduls_content : Bytes
moduls_content =
    codes
      "(id integer NOT NULL, address text, channels text, mint text, pint text, aint text, PRIMARY KEY(id))"

abbrev pub channels_table : Bytes
channels_table = codes "channels"

abbrev pub channels_content : Bytes
channels_content =
    codes
      "(id integer NOT NULL, address text, class text, type text, unit text, exponent text, name text, channel_group text, PRIMARY KEY(id))"

abbrev pub data_table : Bytes
data_table = codes "log_data"

abbrev pub data_content : Bytes
data_content = codes "(datetime timestamp NOT NULL, PRIMARY KEY(datetime))"

abbrev pub settings_table : Bytes
settings_table = codes "settings"

abbrev pub settings_content : Bytes
settings_content = codes "(name text NOT NULL, value text, PRIMARY KEY(name))"

abbrev pub events_table : Bytes
events_table = codes "events"

abbrev pub events_content : Bytes
events_content =
    codes
      "(id integer NOT NULL, tmcreate timestamp, affects text, class text, description text, handled boolean, tmhandled timestamp)"

-- The rows of a new table, each a list of columns with their values.
abbrev pub Rows : Type 0
Rows = List (List (Bytes × Value))

abbrev pub users_rows : Rows
users_rows =
    ((codes "id", number (codes "1"))
      ∷ (codes "login", text (codes "demo"))
      ∷ (codes "first_name", text (codes "demo"))
      ∷ (codes "last_name", text (codes "user"))
      ∷ (codes "timezone", text (codes "0"))
      ∷ (codes "password", text (codes "FE01CE2A7FBAC8FAFAED7C982A04E229"))
      ∷ [])
    ∷ []

abbrev pub setting_row : (name value : Bytes) → List (Bytes × Value)
setting_row name value = (codes "name", text name) ∷ (codes "value", text value) ∷ []

abbrev pub settings_rows : Rows
settings_rows =
    setting_row (codes "DB_VER") (codes "1.0")
    ∷ setting_row (codes "PANID") (codes "21554")
    ∷ setting_row (codes "REGMODE_LEN") (codes "60")
    ∷ setting_row (codes "MAX_REGMODE_LEN") (codes "600")
    ∷ setting_row (codes "REG_MINT") (codes "600")
    ∷ setting_row (codes "REG_PINT") (codes "2")
    ∷ setting_row (codes "REG_AINT") (codes "600")
    ∷ setting_row (codes "NET_TYPE") (codes "DHCP")
    ∷ setting_row (codes "NET_ADR") []
    ∷ setting_row (codes "NET_MASK") []
    ∷ setting_row (codes "NET_GATEWAY") []
    ∷ setting_row (codes "NET_DNS1") []
    ∷ setting_row (codes "NET_DNS2") []
    ∷ setting_row (codes "NET_NEW_TYPE") (codes "DHCP")
    ∷ setting_row (codes "NET_NEW_ADR") []
    ∷ setting_row (codes "NET_NEW_MASK") []
    ∷ setting_row (codes "NET_NEW_GATEWAY") []
    ∷ setting_row (codes "NET_NEW_DNS1") []
    ∷ setting_row (codes "NET_NEW_DNS2") []
    ∷ setting_row (codes "GW_REG_ADR") []
    ∷ setting_row (codes "GW_NOR_ADR") []
    ∷ []

module _ (v : Server) where
  unfoldable pub insert_rows : (table : Bytes) → Rows → v.Db → v.Db
  insert_rows t [] d = d
  insert_rows t (r ∷ rs) d = insert_rows t rs (v.exec (insert t r) d).1

  -- A table that is missing is created, and gets its first rows. The result of the statements is not
  -- used, and each of the functions returns 0.
  unfoldable pub create_table : (table content : Bytes) → Rows → v.Db → v.Db
  create_table t content rows d =
      let (absent, d₁) = table_missing v t d in
      if absent then insert_rows t rows (v.exec (create t content) d₁).1 else d₁

  -- `lielas_deleteTable`, true where it returns -1.
  unfoldable pub delete_table : (table : Bytes) → v.Db → Bool × v.Db
  delete_table t d = table_missing v t (v.exec (drop t) d).1

  unfoldable pub create_lbus_table : v.Db → v.Db
  create_lbus_table = create_table lbus_table lbus_content []

  unfoldable pub create_users_table : v.Db → v.Db
  create_users_table = create_table users_table users_content users_rows

  unfoldable pub create_device_groups_table : v.Db → v.Db
  create_device_groups_table = create_table device_groups_table device_groups_content []

  unfoldable pub create_user_groups_table : v.Db → v.Db
  create_user_groups_table = create_table user_groups_table user_groups_content []

  unfoldable pub create_devices_table : v.Db → v.Db
  create_devices_table = create_table devices_table devices_content []

  unfoldable pub create_moduls_table : v.Db → v.Db
  create_moduls_table = create_table moduls_table moduls_content []

  unfoldable pub create_channels_table : v.Db → v.Db
  create_channels_table = create_table channels_table channels_content []

  unfoldable pub create_data_table : v.Db → v.Db
  create_data_table = create_table data_table data_content []

  unfoldable pub create_settings_table : v.Db → v.Db
  create_settings_table = create_table settings_table settings_content settings_rows

  unfoldable pub create_events_table : v.Db → v.Db
  create_events_table = create_table events_table events_content []

  -- `lielas_createTables`, which always returns 0.
  unfoldable pub create_tables : v.Db → v.Db
  create_tables d =
      let d = create_lbus_table d in
      let d = create_users_table d in
      let d = create_device_groups_table d in
      let d = create_user_groups_table d in
      let d = create_devices_table d in
      let d = create_moduls_table d in
      let d = create_channels_table d in
      let d = create_data_table d in
      let d = create_settings_table d in let d = create_events_table d in d
