-- ===== src/Tests/Ldb.antt =====
-- A server that holds the tables, and the creation of the gateway's tables on it.
use lielas.Base.{
  ◌≡◌, refl, Bool, true, false, List, [], ◌∷◌, ◌++◌, All, Bytes, arith, if◌then◌else◌, str_eq,
  str_eq_refl, str_eq_iff, codes,
}
use lielas.Sql.{
  Answer, tuples, command_ok, failed, Statement, relname, create, drop, insert, Server,
}
use lielas.Ldb
use lielas.Ldb.Created.{Row, key, has_key, IsServer, specs, create_tables-twice}

record Tables : Type 0 where
  has : Bytes → Bool
  rows : Bytes → List Row

abbrev put : Bytes → Bool → List Row → Tables → Tables
put t there rs d = record {
  has = λ u. if str_eq u t then there else d.has u;
  rows = λ u. if str_eq u t then rs else d.rows u;
}

abbrev execute : Statement → Tables → Answer × Tables
execute (relname t) d = (tuples (codes "relname" ∷ []) (if d.has t then (t ∷ []) ∷ [] else []), d)
execute (create t c) d = if d.has t then (failed, d) else (command_ok, put t true [] d)
execute (drop t) d = if d.has t then (command_ok, put t false [] d) else (failed, d)
execute (insert t r) d =
    if d.has t
    then (if has_key (key r) (d.rows t)
        then (failed, d)
        else (command_ok, put t true (d.rows t ++ r ∷ []) d))
    else (failed, d)
execute _ d = (failed, d)

abbrev server : Server
server = record { Db = Tables; exec = execute }

insert_has_lem : (t u : Bytes) (r : Row) (d : Tables) → (execute (insert t r) d).1.has u ≡ d.has u
insert_has_lem t u r d = ground (arith, str_eq_iff u t)

server-IsServer : IsServer server
server-IsServer = record {
  has = λ t d. d.has t;
  rows = λ t d. d.rows t;
  listed = λ t d. refl;
  created = λ t c d e. rw (e, str_eq_refl t) (refl, refl);
  create_others = λ t c u d e. (ground (arith, e), ground (arith, e));
  inserted = λ t r d there new. rw (there, new, str_eq_refl t) refl;
  insert_others = λ t u r d e. ground (arith, e);
  insert_has = insert_has_lem;
}

-- Only the table of devices exists.
abbrev old : Tables
old = record { has = λ u. str_eq u Ldb.devices_table; rows = λ u. [] }

create_tables-twice_example :
    All (λ p. (Ldb.create_tables server old).has p.table ≡ true) specs
    × (Ldb.create_tables server (Ldb.create_tables server old) ≡ Ldb.create_tables server old)
unfolding Ldb.create_tables server-IsServer
create_tables-twice_example = create_tables-twice server server-IsServer old
