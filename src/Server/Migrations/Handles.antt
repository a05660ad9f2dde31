-- ===== src/Server/Migrations/Handles.antt =====
-- internal/storage/postgres/migrate.go: the handle of the database is closed on every path.
use maga.Base.{ℕ, suc, ◌-◌, ◌≡◌, refl, ◌∙◌, arith, [], Str, codes, Result, ok, err}
use maga.Server.Migrations.{
  Migrator, UpError, no_change, up_failed, or_return, unless_no_change, then_close, open_sql_db,
  migrate_with, run_migrations,
}

-- `Open` has one more handle where it succeeds.
abbrev pub Opens : {W H : Type 0} → (W → ℕ) → W → Result Str H × W → Type 0
Opens handles w (ok db, w') = handles w' ≡ suc (handles w)
Opens handles w (err e, w') = handles w' ≡ handles w

-- How many handles are open, of what is outside the process.
pub record HandleLaws {W H D S M : Type 0} (m : Migrator W H D S M) (handles : W → ℕ) : Type 0 where
  pub opens : (dsn : Str) (w : W) → Opens handles w (m.open_db dsn w)
  pub closes : (db : H) (w : W) → handles (m.close db w) ≡ handles w - 1
  pub drives : (db : H) (w : W) → handles (m.with_instance db w).1 ≡ handles w
  pub loads : (w : W) → handles (m.new_source w).1 ≡ handles w
  pub makes : (s : S) (d : D) (w : W) → handles (m.new_with_instance s d w).1 ≡ handles w
  pub runs : (x : M) (w : W) → handles (m.up x w).1 ≡ handles w

module _ {W H D S M : Type 0} (m : Migrator W H D S M) (handles : W → ℕ)
    (law : HandleLaws m handles) where
  or_return-handles :
      {A : Type 0} (message : Str) (r : Result Str A × W) (next : A → W → Result Str Unit × W)
      (n : ℕ)
      → handles r.1 ≡ n
      → ((a : A) (w : W) → handles w ≡ n → handles (next a w).1 ≡ n)
      → handles (or_return message r next).1 ≡ n
  or_return-handles message (err e, w) next n h k = h
  or_return-handles message (ok a, w) next n h k = k a w h

  unless_no_change-handles :
      (r : Result UpError Unit × W) → handles (unless_no_change r).1 ≡ handles r.1
  unless_no_change-handles (ok u, w) = refl
  unless_no_change-handles (err no_change, w) = refl
  unless_no_change-handles (err (up_failed e), w) = refl

  migrate_with-handles : (db : H) (w : W) → handles (migrate_with m db w).1 ≡ handles w
  unfolding migrate_with
  migrate_with-handles db w =
      or_return-handles (codes "creating migration driver: ") (m.with_instance db w) _ (handles w)
        (law.drives db w)
        λ driver w1 h1.
          or_return-handles (codes "loading migration source: ") (m.new_source w1) _ (handles w)
            (law.loads w1 ∙ h1)
            λ source w2 h2.
              or_return-handles (codes "creating migrator: ") (m.new_with_instance source driver w2)
                _ (handles w) (law.makes source driver w2 ∙ h2)
                λ up w3 h3. unless_no_change-handles (m.up up w3) ∙ law.runs up w3 ∙ h3

  opened-handles :
      (w : W) (r : Result Str H × W)
      → Opens handles w r
      → handles (or_return {B = Unit} [] r λ db w'. then_close m db (migrate_with m db w')).1
        ≡ handles w
  opened-handles w (err e, w') h = h
  opened-handles w (ok db, w') h =
      omega (arith, law.closes db (migrate_with m db w').1, migrate_with-handles db w', h)

  open_sql_db-Opens :
      (w : W) (r : Result Str H × W)
      → Opens handles w r
      → Opens handles w (or_return (codes "opening database: ") r λ db w'. (ok db, w'))
  open_sql_db-Opens w (err e, w') h = h
  open_sql_db-Opens w (ok db, w') h = h

  -- On every path, errors included, `RunMigrations` leaves as many handles of databases open as before.
  pub run_migrations-handles : (dsn : Str) (w : W) → handles (run_migrations m dsn w).1 ≡ handles w
  unfolding run_migrations open_sql_db
  run_migrations-handles dsn w =
      opened-handles w (open_sql_db m dsn w)
        (open_sql_db-Opens w (m.open_db dsn w) (law.opens dsn w))
