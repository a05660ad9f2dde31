-- ===== src/Tests/Server.antt =====
-- cmd/apiserver and internal/storage/postgres/migrate.go: tests and applied theorems.
use maga.Base.{
  ℕ, ◌+◌, ◌-◌, ◌≡◌, refl, arith, Bool, true, false, none, codes, Result, ok, err, if◌then◌else◌,
}
use maga.Config.{Environment, load}
use maga.Server.Migrations.{Migrator, UpError, no_change, run_migrations, open_sql_db, migrate_with}
use maga.Server.Migrations.Handles.{HandleLaws, run_migrations-handles}
use maga.Server.{Platform, server_failed, main}
use maga.Server.Starts.{Starts, Migrates, main-Starts}

-- the open handles, and whether the migrations are applied
record Disk : Type 0 where
  pub open_handles : ℕ
  pub is_migrated : Bool

abbrev up : Unit {0} → Disk → Result UpError Unit × Disk
up x w = (if w.is_migrated then err no_change else ok tt, record w { is_migrated = true })

abbrev migrator : Migrator Disk Unit Unit Unit Unit
migrator = record {
  open_db = λ dsn w. (ok tt, record w { open_handles = w.open_handles + 1 });
  with_instance = λ db w. (ok tt, w);
  new_source = λ w. (ok tt, w);
  new_with_instance = λ s d w. (ok tt, w);
  up = up;
  close = λ db w. record w { open_handles = w.open_handles - 1 };
}

abbrev platform : Platform Disk Unit Unit
platform = record {
  new_pool = λ url w. (ok tt, w);
  ping = λ pool w. (ok tt, w);
  close_pool = λ pool w. w;
  router = λ cfg pool. tt;
  listen_and_serve = λ addr router w. (err (codes "stopped"), w);
}

abbrev fresh : Disk
fresh = record { open_handles = 0; is_migrated = false }

abbrev no_variables : Environment
no_variables key = none

-- The second run finds nothing to change, and succeeds as well.
run_twice :
    let w = (run_migrations migrator (codes "dsn") fresh).1 in
    (w ≡ record fresh { is_migrated = true })
    × (run_migrations migrator (codes "dsn") w ≡ (ok tt, w))
unfolding run_migrations open_sql_db migrate_with
run_twice = (refl, refl)

handle_laws : HandleLaws migrator (λ w. w.open_handles)
handle_laws = record {
  opens = λ dsn w. omega arith;
  closes = λ db w. refl;
  drives = λ db w. refl;
  loads = λ w. refl;
  makes = λ s d w. refl;
  runs = λ x w. refl;
}

run_migrations-handles_example : (run_migrations migrator (codes "dsn") fresh).1.open_handles ≡ 0
run_migrations-handles_example =
    run_migrations-handles migrator (λ w. w.open_handles) handle_laws (codes "dsn") fresh

up-Migrates :
    (b : Bool) (w : Disk)
    → w.is_migrated ≡ true
    → Migrates (λ w. w.is_migrated ≡ true) (if b then err no_change else ok tt, w)
up-Migrates true w h = h
up-Migrates false w h = h

main-Starts_example :
    Starts migrator platform
      (λ w. w.is_migrated ≡ true)
      (load no_variables)
      (main migrator platform no_variables fresh)
main-Starts_example =
    main-Starts migrator platform (λ w. w.is_migrated ≡ true)
      (λ x w. up-Migrates w.is_migrated (record w { is_migrated = true }) refl) (λ db w h. h)
      (λ url w h. h) (λ pool w h. h) no_variables fresh

main_stopped : (main migrator platform no_variables fresh).0 ≡ server_failed (codes "stopped")
unfolding main
main_stopped = refl
