-- ===== src/Server/Starts.antt =====
-- cmd/apiserver/main.go and internal/storage/postgres/migrate.go: what has happened once the server listens.
use maga.Base.{[], codes, ◌≡◌, ◌⊎◌, inl, inr, refl, Str, Result, ok, err}
use maga.Config.{Environment, Config, load}
use maga.Server.Migrations.{
  Migrator, UpError, no_change, up_failed, or_return, unless_no_change, then_close, open_sql_db,
  migrate_with, run_migrations,
}
use maga.Server.{
  Exit, migrations_failed, pool_failed, ping_failed, server_failed, returned, Platform, served,
  pinged, pooled, migrated, main,
}

-- A call of `Up` that is no failure leaves the database migrated.
abbrev pub Migrates : {W : Type 0} → (W → Type 0) → Result UpError Unit × W → Type 0
Migrates P (ok u, w) = P w
Migrates P (err no_change, w) = P w
Migrates P (err (up_failed e), w) = Unit

abbrev Succeeds : {W : Type 0} → (W → Type 0) → Result Str Unit × W → Type 0
Succeeds P (ok u, w) = P w
Succeeds P (err e, w) = Unit

-- The process has ended before the server listened.
abbrev pub IsStartFailure : Exit → Type 0
IsStartFailure (migrations_failed e) = Unit
IsStartFailure (pool_failed e) = Unit
IsStartFailure (ping_failed e) = Unit
IsStartFailure (server_failed e) = ⊥
IsStartFailure returned = ⊥

module _ {W H D S M P R : Type 0} (m : Migrator W H D S M) (p : Platform W P R)
    (IsMigrated : W → Type 0) where
  -- or it listens, in a state that is migrated
  abbrev pub Starts : Config → Exit × W → Type 0
  Starts cfg x =
      IsStartFailure x.0
      ⊎ ((pool : P) × (w : W) × IsMigrated w
          × (x ≡ served m p pool (p.listen_and_serve cfg.listen_addr (p.router cfg pool) w)))

module _ {W H D S M P R : Type 0} (m : Migrator W H D S M) (p : Platform W P R)
    (IsMigrated : W → Type 0) (ups : (x : M) (w : W) → Migrates IsMigrated (m.up x w))
    (closes : (db : H) (w : W) → IsMigrated w → IsMigrated (m.close db w))
    (pools : (url : Str) (w : W) → IsMigrated w → IsMigrated (p.new_pool url w).1)
    (pings : (pool : P) (w : W) → IsMigrated w → IsMigrated (p.ping pool w).1) where
  or_return-Succeeds :
      {A : Type 0} (message : Str) (r : Result Str A × W) (next : A → W → Result Str Unit × W)
      → ((a : A) (w : W) → Succeeds IsMigrated (next a w))
      → Succeeds IsMigrated (or_return message r next)
  or_return-Succeeds message (err e, w) next h = tt
  or_return-Succeeds message (ok a, w) next h = h a w

  unless_no_change-Succeeds :
      (r : Result UpError Unit × W)
      → Migrates IsMigrated r
      → Succeeds IsMigrated (unless_no_change r)
  unless_no_change-Succeeds (ok u, w) h = h
  unless_no_change-Succeeds (err no_change, w) h = h
  unless_no_change-Succeeds (err (up_failed e), w) h = tt

  then_close-Succeeds :
      (db : H) (r : Result Str Unit × W)
      → Succeeds IsMigrated r
      → Succeeds IsMigrated (then_close m db r)
  then_close-Succeeds db (ok u, w) h = closes db w h
  then_close-Succeeds db (err e, w) h = tt

  run_migrations-Succeeds : (dsn : Str) (w : W) → Succeeds IsMigrated (run_migrations m dsn w)
  unfolding run_migrations migrate_with
  run_migrations-Succeeds dsn w = or_return-Succeeds [] (open_sql_db m dsn w) _ λ db w0.
      then_close-Succeeds db (migrate_with m db w0) (
        or_return-Succeeds (codes "creating migration driver: ") (m.with_instance db w0) _
          λ driver w1.
            or_return-Succeeds (codes "loading migration source: ") (m.new_source w1) _ λ source w2.
              or_return-Succeeds (codes "creating migrator: ")
                (m.new_with_instance source driver w2) _
                λ up w3. unless_no_change-Succeeds (m.up up w3) (ups up w3))

  pinged-Starts :
      (cfg : Config) (pool : P) (r : Result Str Unit × W)
      → IsMigrated r.1
      → Starts m p IsMigrated cfg (pinged m p cfg pool r)
  pinged-Starts cfg pool (err e, w) h = inl tt
  pinged-Starts cfg pool (ok u, w) h = inr (pool, w, h, refl)

  pooled-Starts :
      (cfg : Config) (r : Result Str P × W)
      → IsMigrated r.1
      → Starts m p IsMigrated cfg (pooled m p cfg r)
  pooled-Starts cfg (err e, w) h = inl tt
  pooled-Starts cfg (ok pool, w) h = pinged-Starts cfg pool (p.ping pool w) (pings pool w h)

  migrated-Starts :
      (cfg : Config) (r : Result Str Unit × W)
      → Succeeds IsMigrated r
      → Starts m p IsMigrated cfg (migrated m p cfg r)
  migrated-Starts cfg (err e, w) h = inl tt
  migrated-Starts cfg (ok u, w) h =
      pooled-Starts cfg (p.new_pool cfg.database_url w) (pools cfg.database_url w h)

  -- The process ends with the message of a failed start, or the server listens, on the address of the
  -- configuration, with a database that is migrated. This rests on `Up`, that it leaves the
  -- database migrated where it returns nil or `ErrNoChange`, and on the calls after it, that they keep it so.
  pub main-Starts : (env : Environment) (w : W) → Starts m p IsMigrated (load env) (main m p env w)
  unfolding main
  main-Starts env w =
      migrated-Starts (load env) (run_migrations m (load env).database_url w)
        (run_migrations-Succeeds (load env).database_url w)
