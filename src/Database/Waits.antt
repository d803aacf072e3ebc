-- ===== src/Database/Waits.antt =====
-- What holds at each wait of a scope.
use z_apply_backend.Base.{
  ◌+◌, ◌≡◌, refl, sym, ap, ◌∙◌, Bool, true, false, List, ◌⊎◌, inl, inr, if◌then◌else◌,
}
use z_apply_backend.Models.{Db}
use z_apply_backend.Repo.{ok, Tx}
use z_apply_backend.Database.{
  ScopeEnd, returned, was_cancelled, raised, ScopePhase, entering, within, committing, rolling_back,
  closing, ended, CloseTask, idle, running, finished, Scope, finally, all_of,
}

-- The close was begun: its task runs, or is at its end.
abbrev pub IsBegun : CloseTask → Type 0
IsBegun idle = ⊥
IsBegun running = Unit
IsBegun (finished e) = Unit

module _ (begin : Bool) (statements : List (Tx (Unit {0}))) (db : Db) where
  -- The tables are those of before, or a transaction was begun and all of its statements are done.
  abbrev pub Whole : Db → Type 0
  Whole db' = (db' ≡ db) ⊎ ((begin ≡ true) × (all_of statements db ≡ ok (tt, db')))

  -- If the body returns, its statements have succeeded, and a transaction is committed.
  abbrev pub Left : ScopeEnd → Db → Type 0
  Left returned db' =
      (view : Db) × (all_of statements db ≡ ok (tt, view)) × (db' ≡ (if begin then view else db))
  Left was_cancelled db' = Whole db'
  Left (raised e) db' = Whole db'

  settled-Whole :
      (b : Bool) (view db' : Db)
      → begin ≡ b
      → all_of statements db ≡ ok (tt, view)
      → db' ≡ (if b then view else db)
      → Whole db'
  settled-Whole true view db' b e same = inr (b, e ∙ ap (λ d. ok (tt, d)) (sym same))
  settled-Whole false view db' b e same = inl same

  pub Left-Whole : (o : ScopeEnd) (db' : Db) → Left o db' → Whole db'
  Left-Whole returned db' (view, e, same) = settled-Whole begin view db' refl e same
  Left-Whole was_cancelled db' h = h
  Left-Whole (raised e) db' h = h

  pub record Before (w : Scope) : Type 0 where
    pub same : w.db ≡ db
    pub closings : w.closings ≡ 0

  pub record After (o : ScopeEnd) (w : Scope) : Type 0 where
    pub left : Left o w.db
    pub begun : IsBegun w.close
    pub closings : w.closings ≡ 1

  -- What ends a wait from outside is an exception.
  abbrev pub IsAbrupt : ScopeEnd → Type 0
  IsAbrupt returned = ⊥
  IsAbrupt was_cancelled = Unit
  IsAbrupt (raised e) = Unit

  -- What holds at each wait.
  abbrev pub Waits : ScopePhase → Scope → Type 0
  Waits (entering ms) w = Before w × (all_of ms w.view ≡ all_of statements db)
  Waits (within ms) w = Before w × (all_of ms w.view ≡ all_of statements db)
  Waits committing w = Before w × (begin ≡ true) × (all_of statements db ≡ ok (tt, w.view))
  Waits (rolling_back o) w = Before w × IsAbrupt o
  Waits (closing o) w = After o w
  Waits (ended o) w = After o w

  pub abrupt-Left : (o : ScopeEnd) (db' : Db) → IsAbrupt o → Whole db' → Left o db'
  abrupt-Left returned db' a h = absurd a
  abrupt-Left was_cancelled db' a h = h
  abrupt-Left (raised e) db' a h = h

  pub finally-Waits :
      (o : ScopeEnd) (w : Scope)
      → w.closings ≡ 0
      → Left o w.db
      → Waits (finally o w).phase (finally o w)
  unfolding finally
  finally-Waits o w none_yet left = record {
    left = left;
    begun = tt;
    closings = ap (λ n. n + 1) none_yet;
  }
