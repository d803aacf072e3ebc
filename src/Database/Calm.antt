-- ===== src/Database/Calm.antt =====
-- A scope that nothing disturbs is the transaction of the repository functions.
use z_apply_backend.Base.{
  ℕ, zero, suc, ◌+◌, ◌≡◌, refl, subst, true, none, List, [], ◌∷◌, arith, length,
}
use z_apply_backend.Models.{Db}
use z_apply_backend.Repo.{Result, ok, err, Tx, ◌>>◌, session_scope}
use z_apply_backend.Database.{
  refused, ScopeEnd, returned, raised, ScopePhase, within, committing, ended, idle, Scope, Awaited,
  resumes, closes, finally, leave, executed, commit, close_ends, shielded, resume, step, run,
  open_scope, all_of,
}

-- Every await returns, and the close ends after `n` of them.
abbrev pub calm : ℕ → List Awaited
calm zero = closes none ∷ resumes ∷ []
calm (suc n) = resumes ∷ calm n

abbrev pub end_of : Result (Unit {0}) → ScopeEnd
end_of (ok done') = returned
end_of (err e) = raised (refused e)

abbrev Ends : Result (Unit {0}) × Db → Scope → Type 0
Ends (r, db) w = (w.db ≡ db) × (w.phase ≡ ended (end_of r))

abbrev at : Db → Db → ScopePhase → Scope
at db view phase = record { db = db; view = view; phase = phase; close = idle; closings = 0 }

calm-closing :
    (n : ℕ) (db view : Db) (o : ScopeEnd)
    → let w = run true (calm n) (finally o (at db view committing)) in
      (w.db ≡ db) × (w.phase ≡ ended o)
unfolding run step finally close_ends resume shielded
calm-closing zero db view o = (refl, refl)
calm-closing (suc n) db view o = calm-closing n db view o

calm-leave :
    (n : ℕ) (db view : Db) (o : ScopeEnd)
    → let w = run true (calm (suc n)) (leave true o (at db view (within []))) in
      (w.db ≡ db) × (w.phase ≡ ended o)
unfolding run step leave resume finally
calm-leave n db view o = calm-closing n db view o

-- What a body makes of a view, if the tables stay those until it ends.
abbrev settled : Db → Result (Unit {0} × Db) → Result (Unit {0}) × Db
settled db (ok (done', view)) = (ok tt, view)
settled db (err e) = (err e, db)

calm-body :
    (statements : List (Tx (Unit {0}))) (db view : Db)
    → Ends
        (settled db (all_of statements view))
        (run true (calm (suc (suc (length statements)))) (at db view (within statements)))
unfolding run step resume finally commit close_ends shielded all_of executed leave
calm-body [] db view = (refl, refl)
calm-body (statement ∷ rest) db view = follow (statement view) (λ v. calm-body rest db v)
  where
    follow :
        (r : Result (Unit {0} × Db))
        → ((v : Db)
            → Ends
                (settled db (all_of rest v))
                (run true (calm (suc (suc (length rest)))) (at db v (within rest))))
        → Ends (settled db (((λ _. r) >> all_of rest) view)) (
            run true
              (calm (suc (suc (length rest))))
              (executed true rest r (at db view (within (statement ∷ rest)))))
    follow (ok (done', v)) ih = ih v
    follow (err e) ih = calm-leave (suc (length rest)) db view (raised (refused e))

session_scope-settled : (m : Tx (Unit {0})) (db : Db) → settled db (m db) ≡ session_scope m db
unfolding session_scope
session_scope-settled m db = go (m db)
  where
    go : (r : Result (Unit {0} × Db)) → settled db r ≡ session_scope (λ _. r) db
    go (ok (done', view)) = refl
    go (err e) = refl

-- A scope with `begin`, in which every await returns and no other task interferes, ends after three
-- awaits more than its body has statements, and then the tables and the end are what
-- `session_scope` of the whole body gives: committed if every statement succeeds, and otherwise the
-- tables of before and the first error.
pub calm-session_scope :
    (statements : List (Tx (Unit {0}))) (db : Db)
    → let w = run true (calm (length statements + 3)) (open_scope true statements db) in
      let (r, db') = session_scope (all_of statements) db in
      (w.db ≡ db') × (w.phase ≡ ended (end_of r))
unfolding run step resume open_scope
calm-session_scope statements db =
    let w = at db db (within statements) in
    let three : suc (suc (suc (length statements))) ≡ length statements + 3 = omega arith in
    subst
      (λ n.
        Ends (session_scope (all_of statements) db)
          (run true (calm n) (open_scope true statements db)))
      three
      (subst (λ s. Ends s (run true (calm (suc (suc (length statements)))) w))
        (session_scope-settled (all_of statements) db) (calm-body statements db db))
