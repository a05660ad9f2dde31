-- ===== src/Server.antt =====
-- cmd/apiserver/main.go: the start of the server. `log.Fatalf` ends the process, so nothing comes after it; the
-- call of `ListenAndServe` returns only with an error.
pub mod Migrations
pub mod Starts
use maga.Base.{Str, Result, ok, err}
use maga.Config.{Config, Environment, load}
use maga.Server.Migrations.{Migrator, run_migrations}

-- How `main` ends: with the message of `log.Fatalf`, or by its return.
pub data Exit : Type 0 where
  migrations_failed pool_failed ping_failed server_failed : Str → Exit
  returned : Exit

-- pgxpool and net/http; `W` is what is outside the process, and `H` the handlers over the pool.
pub record Platform (W P R : Type 0) : Type 0 where
  pub new_pool : Str → W → Result Str P × W
  pub ping : P → W → Result Str Unit × W
  pub close_pool : P → W → W
  pub router : Config → P → R
  pub listen_and_serve : Str → R → W → Result Str Unit × W

module _ {W H D S M P R : Type 0} (m : Migrator W H D S M) (p : Platform W P R) where
  abbrev pub served : P → Result Str Unit × W → Exit × W
  served pool (err e, w) = (server_failed e, w)
  served pool (ok u, w) = (returned, p.close_pool pool w)

  abbrev pub pinged : Config → P → Result Str Unit × W → Exit × W
  pinged cfg pool (err e, w) = (ping_failed e, w)
  pinged cfg pool (ok u, w) = served pool (p.listen_and_serve cfg.listen_addr (p.router cfg pool) w)

  abbrev pub pooled : Config → Result Str P × W → Exit × W
  pooled cfg (err e, w) = (pool_failed e, w)
  pooled cfg (ok pool, w) = pinged cfg pool (p.ping pool w)

  abbrev pub migrated : Config → Result Str Unit × W → Exit × W
  migrated cfg (err e, w) = (migrations_failed e, w)
  migrated cfg (ok u, w) = pooled cfg (p.new_pool cfg.database_url w)

  -- `main`
  unfoldable pub main : Environment → W → Exit × W
  unfolding load run_migrations
  main env w = let cfg = load env in migrated cfg (run_migrations m cfg.database_url w)
