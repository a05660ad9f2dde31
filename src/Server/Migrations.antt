-- ===== src/Server/Migrations.antt =====
-- internal/storage/postgres/migrate.go. database/sql and golang-migrate are parameters, over what is outside the
-- process; `migrations.FS` is a part of them.
pub mod Handles
use maga.Base.{[], Str, codes, ◌++◌, Result, ok, err}

-- The error of `Up`: `migrate.ErrNoChange` or another one.
pub data UpError : Type 0 where
  no_change : UpError
  up_failed : Str → UpError

-- `sql.Open`, `WithInstance` of the driver, `iofs.New`, `NewWithInstance` of the migrator, `Up`, and the `Close`
-- of the handle.
pub record Migrator (W H D S M : Type 0) : Type 0 where
  pub open_db : Str → W → Result Str H × W
  pub with_instance : H → W → Result Str D × W
  pub new_source : W → Result Str S × W
  pub new_with_instance : S → D → W → Result Str M × W
  pub up : M → W → Result UpError Unit × W
  pub close : H → W → W

module _ {W : Type 0} where
  -- An early return on an error, whose message is put before its own.
  abbrev pub or_return :
      {A B : Type 0} → Str → Result Str A × W → (A → W → Result Str B × W) → Result Str B × W
  or_return message (err e, w) next = (err (message ++ e), w)
  or_return message (ok a, w) next = next a w

  abbrev pub unless_no_change : Result UpError Unit × W → Result Str Unit × W
  unless_no_change (ok u, w) = (ok tt, w)
  unless_no_change (err no_change, w) = (ok tt, w)
  unless_no_change (err (up_failed e), w) = (err (codes "running migrations: " ++ e), w)

module _ {W H D S M : Type 0} (m : Migrator W H D S M) where
  -- `OpenSQLDB`
  unfoldable pub open_sql_db : Str → W → Result Str H × W
  open_sql_db dsn w = or_return (codes "opening database: ") (m.open_db dsn w) λ db w'. (ok db, w')

  -- `defer db.Close()`
  abbrev pub then_close : H → Result Str Unit × W → Result Str Unit × W
  then_close db r = (r.0, m.close db r.1)

  -- What `RunMigrations` does with the open handle.
  unfoldable pub migrate_with : H → W → Result Str Unit × W
  migrate_with db w =
      or_return (codes "creating migration driver: ") (m.with_instance db w) λ driver w1.
        or_return (codes "loading migration source: ") (m.new_source w1) λ source w2.
          or_return (codes "creating migrator: ") (m.new_with_instance source driver w2)
            λ up w3. unless_no_change (m.up up w3)

  -- `RunMigrations`
  unfoldable pub run_migrations : Str → W → Result Str Unit × W
  unfolding open_sql_db migrate_with
  run_migrations dsn w =
      or_return [] (open_sql_db dsn w) λ db w'. then_close db (migrate_with db w')
