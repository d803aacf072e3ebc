-- ===== src/Database/Steps.antt =====
-- What ends a wait of a scope keeps what holds there.
use z_apply_backend.Database.Waits.{
  Whole, Left-Whole, Before, After, IsAbrupt, Waits, abrupt-Left, finally-Waits,
}
use z_apply_backend.Base.{
  ◌≡◌, refl, sym, ap, ◌∙◌, subst, Bool, true, false, Option, none, some, List, [], ◌∷◌, inl, inr,
  if◌then◌else◌, arith,
}
use z_apply_backend.Models.{Db}
use z_apply_backend.Repo.{Result, ok, err, Tx}
use z_apply_backend.Database.{
  Exception, refused, ScopeEnd, returned, raised, ScopePhase, entering, within, committing,
  rolling_back, closing, ended, CloseTask, idle, running, finished, Scope, finally, leave, executed,
  commit, close_ends, shielded, resume, interrupt, fail, all_of,
}

module _ (begin : Bool) (statements : List (Tx (Unit {0}))) (db : Db) where
  leave-Waits :
      (b : Bool) (o : ScopeEnd) (w : Scope)
      → IsAbrupt begin statements db o
      → Before begin statements db w
      → Waits begin statements db (leave b o w).phase (leave b o w)
  unfolding leave
  leave-Waits true o w a h = (record { same = h.same; closings = h.closings }, a)
  leave-Waits false o w a h =
      finally-Waits begin statements db o w h.closings
        (abrupt-Left begin statements db o w.db a (inl h.same))

  commit-Whole :
      (landed : Bool) (w : Scope)
      → Waits begin statements db committing w
      → Whole begin statements db (commit landed w).db
  unfolding commit
  commit-Whole true w (h, b, done') = inr (b, done')
  commit-Whole false w (h, b, done') = inl h.same

  pub interrupt-Waits :
      (landed : Bool) (o : ScopeEnd) (phase : ScopePhase) (w : Scope)
      → IsAbrupt begin statements db o
      → w.phase ≡ phase
      → Waits begin statements db phase w
      → Waits begin statements db
          (interrupt begin landed o phase w).phase
          (interrupt begin landed o phase w)
  unfolding interrupt commit
  interrupt-Waits landed o (entering ms) w a e (h, same) =
      finally-Waits begin statements db o w h.closings
        (abrupt-Left begin statements db o w.db a (inl h.same))
  interrupt-Waits landed o (within ms) w a e (h, same) = leave-Waits begin o w a h
  interrupt-Waits landed o committing w a e (h, b, done') =
      finally-Waits begin statements db o (commit landed w) h.closings
        (abrupt-Left begin statements db o _ a (commit-Whole landed w (h, b, done')))
  interrupt-Waits landed o (rolling_back before) w a e (h, _) =
      finally-Waits begin statements db o w h.closings
        (abrupt-Left begin statements db o w.db a (inl h.same))
  interrupt-Waits landed o (closing before) w a e h = record {
    left =
        abrupt-Left begin statements db o w.db a
          (Left-Whole begin statements db before w.db h.left);
    begun = h.begun;
    closings = h.closings;
  }
  interrupt-Waits landed o (ended before) w a e h =
      subst (λ p. Waits begin statements db p w) (sym e) h

  pub fail-Waits :
      (landed : Bool) (x : Exception) (phase : ScopePhase) (w : Scope)
      → w.phase ≡ phase
      → Waits begin statements db phase w
      → Waits begin statements db (fail begin landed x phase w).phase (fail begin landed x phase w)
  unfolding fail
  fail-Waits landed x (entering ms) w e h = interrupt-Waits landed (raised x) (entering ms) w tt e h
  fail-Waits landed x (within ms) w e h = interrupt-Waits landed (raised x) (within ms) w tt e h
  fail-Waits landed x committing w e h = interrupt-Waits landed (raised x) committing w tt e h
  fail-Waits landed x (rolling_back o) w e h =
      interrupt-Waits landed (raised x) (rolling_back o) w tt e h
  fail-Waits landed x (closing o) w e h = subst (λ p. Waits begin statements db p w) (sym e) h
  fail-Waits landed x (ended o) w e h = subst (λ p. Waits begin statements db p w) (sym e) h

  all_of-next :
      (statement : Tx (Unit {0})) (rest : List (Tx (Unit {0}))) (db view : Db)
      → statement db ≡ ok (tt, view)
      → all_of (statement ∷ rest) db ≡ all_of rest view
  unfolding all_of
  all_of-next statement rest db view e = ground arith

  executed-Waits :
      (statement : Tx (Unit {0})) (rest : List (Tx (Unit {0}))) (w : Scope)
      (r : Result (Unit {0} × Db))
      → Waits begin statements db (within (statement ∷ rest)) w
      → statement w.view ≡ r
      → Waits begin statements db (executed begin rest r w).phase (executed begin rest r w)
  unfolding executed all_of
  executed-Waits statement rest w (ok (done', view)) (h, same) e = (
    record { same = h.same; closings = h.closings },
    sym (all_of-next statement rest w.view view e) ∙ same,
  )
  executed-Waits statement rest w (err x) (h, same) e =
      leave-Waits begin (raised (refused x)) w tt h

  body_ends :
      (b : Bool) (w : Scope)
      → begin ≡ b
      → Waits begin statements db (within []) w
      → let w' = if b then record w { phase = committing } else finally returned w in
        Waits begin statements db w'.phase w'
  unfolding all_of
  body_ends true w b (h, same) = (record { same = h.same; closings = h.closings }, b, sym same)
  body_ends false w b (h, same) =
      finally-Waits begin statements db returned w h.closings
        (w.view, sym same, h.same ∙ sym (ap (λ c. if c then w.view else db) b))

  shielded-Waits :
      (o : ScopeEnd) (close : CloseTask) (w : Scope)
      → w.phase ≡ closing o
      → After begin statements db o w
      → Waits begin statements db (shielded o close w).phase (shielded o close w)
  unfolding shielded
  shielded-Waits o (finished none) w e h = record {
    left = h.left;
    begun = h.begun;
    closings = h.closings;
  }
  shielded-Waits o (finished (some x)) w e h = record {
    left = Left-Whole begin statements db o w.db h.left;
    begun = h.begun;
    closings = h.closings;
  }
  shielded-Waits o idle w e h = subst (λ p. Waits begin statements db p w) (sym e) h
  shielded-Waits o running w e h = subst (λ p. Waits begin statements db p w) (sym e) h

  pub resume-Waits :
      (phase : ScopePhase) (w : Scope)
      → w.phase ≡ phase
      → Waits begin statements db phase w
      → Waits begin statements db (resume begin phase w).phase (resume begin phase w)
  unfolding resume commit
  resume-Waits (entering ms) w e (h, same) = (record { same = h.same; closings = h.closings }, same)
  resume-Waits (within []) w e h = body_ends begin w refl h
  resume-Waits (within (statement ∷ rest)) w e h = executed-Waits statement rest w _ h refl
  resume-Waits committing w e (h, b, done') =
      finally-Waits begin statements db returned (commit true w) h.closings
        (w.view, done', sym (ap (λ c. if c then w.view else db) b))
  resume-Waits (rolling_back o) w e (h, a) =
      finally-Waits begin statements db o w h.closings
        (abrupt-Left begin statements db o w.db a (inl h.same))
  resume-Waits (closing o) w e h = shielded-Waits o w.close w e h
  resume-Waits (ended o) w e h = subst (λ p. Waits begin statements db p w) (sym e) h

  closed-Waits :
      (x : Option Exception) (phase : ScopePhase) (w : Scope)
      → Waits begin statements db phase w
      → Waits begin statements db phase (record w { close = finished x })
  closed-Waits x (entering ms) w (h, same) = (record { same = h.same; closings = h.closings }, same)
  closed-Waits x (within ms) w (h, same) = (record { same = h.same; closings = h.closings }, same)
  closed-Waits x committing w (h, b, more) =
      (record { same = h.same; closings = h.closings }, b, more)
  closed-Waits x (rolling_back o) w (h, a) = (record { same = h.same; closings = h.closings }, a)
  closed-Waits x (closing o) w h = record { left = h.left; begun = tt; closings = h.closings }
  closed-Waits x (ended o) w h = record { left = h.left; begun = tt; closings = h.closings }

  pub close_ends-Waits :
      (x : Option Exception) (close : CloseTask) (phase : ScopePhase) (w : Scope)
      → w.phase ≡ phase
      → w.close ≡ close
      → Waits begin statements db phase w
      → Waits begin statements db (close_ends x close w).phase (close_ends x close w)
  unfolding close_ends
  close_ends-Waits x running phase w e c h =
      subst (λ p. Waits begin statements db p (record w { close = finished x })) (sym e)
        (closed-Waits x phase w h)
  close_ends-Waits x idle phase w e c h = subst (λ p. Waits begin statements db p w) (sym e) h
  close_ends-Waits x (finished before) phase w e c h =
      subst (λ p. Waits begin statements db p w) (sym e) h
