-- ===== src/Repo/Binds.antt =====
-- The first step of an action: it went well, or its error ends the action.
use z_apply_backend.Base.{◌≡◌, arith}
use z_apply_backend.Models.{Db}
use z_apply_backend.Repo.{Error, Tx, ok, err, ◌>>=◌}

pub bind-ok :
    {A B : Type 0} (m : Tx A) (f : A → Tx B) (db db' : Db) (a : A)
    → m db ≡ ok (a, db')
    → (m >>= f) db ≡ f a db'
bind-ok m f db db' a e = ground arith

pub bind-err :
    {A B : Type 0} (m : Tx A) (f : A → Tx B) (db : Db) (x : Error)
    → m db ≡ err x
    → (m >>= f) db ≡ err x
bind-err m f db x e = ground arith
