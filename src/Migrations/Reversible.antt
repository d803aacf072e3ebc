-- ===== src/Migrations/Reversible.antt =====
-- What `downgrade` undoes.
use z_apply_backend.Base.{
  ◌≡◌, refl, sym, subst, ap, ◌∙◌, Option, none, some, List, [], ◌∷◌, ◌++◌, String,
}
use z_apply_backend.Migrations.{
  TableName, Column, Operation, create_table, drop_table, create_index, drop_index, add_column,
  drop_column, set_default, create_foreign_key, drop_constraint,
}
use z_apply_backend.Migrations.Later.{
  Revision, initial_schema, human_request_free_text, human_request_artifact, model_calls_ledger,
  prompt_variant, provider_reasoning_columns, control_mode_pending, runs_updated_at_default,
  drop_prompt_variant, upgrade, downgrade,
}

-- What PostgreSQL does for the operations of Alembic: a schema, how an operation changes it (`none`
-- is an error), and that what was just made can be dropped again, which leaves what was before.
pub record Ddl : Type 1 where
  pub Schema : Type 0
  pub apply : Operation → Schema → Option Schema
  pub drop_created_table :
      (t : TableName) (columns : List Column) (unique : Option (String × List String))
      (s s' : Schema)
      → apply (create_table t columns unique) s ≡ some s'
      → apply (drop_table t) s' ≡ some s
  pub drop_created_index :
      (name : String) (t : TableName) (columns : List String) (s s' : Schema)
      → apply (create_index name t columns) s ≡ some s'
      → apply (drop_index name t) s' ≡ some s
  pub drop_added_column :
      (t : TableName) (c : Column) (s s' : Schema)
      → apply (add_column t c) s ≡ some s'
      → apply (drop_column t c.name) s' ≡ some s
  pub drop_created_key :
      (name : String) (t target : TableName) (column : String) (s s' : Schema)
      → apply (create_foreign_key name t target column) s ≡ some s'
      → apply (drop_constraint name t) s' ≡ some s

-- The operation that undoes one that makes something.
abbrev pub inverse : Operation → Option Operation
inverse (create_table t columns unique) = some (drop_table t)
inverse (create_index name t columns) = some (drop_index name t)
inverse (add_column t c) = some (drop_column t c.name)
inverse (create_foreign_key name t target column) = some (drop_constraint name t)
inverse _ = none

abbrev pub and_then {ℓ} : {A B : Type ℓ} → Option A → (A → Option B) → Option B
and_then none f = none
and_then (some a) f = f a

and_then-eq-some {ℓ} :
    {A B : Type ℓ} (m : Option A) (f : A → Option B) (b : B)
    → and_then m f ≡ some b
    → (a : A) × (m ≡ some a) × (f a ≡ some b)
and_then-eq-some none f b e = cc
and_then-eq-some (some a) f b e = (a, refl, e)

-- The operations that undo a list of them, from its end; none if one of them makes nothing.
abbrev pub mirror : List Operation → Option (List Operation)
mirror [] = some []
mirror (op ∷ up) =
    and_then (inverse op) (λ back. and_then (mirror up) (λ down. some (down ++ back ∷ [])))

and_then-some {ℓ} : {A : Type ℓ} (m : Option A) → and_then m some ≡ m
and_then-some none = refl
and_then-some (some a) = refl

unwrap {ℓ} : {A : Type ℓ} {a b : A} → some a ≡ some b → a ≡ b
unwrap e = cc

module _ (ddl : Ddl) where
  open ddl use {
    Schema, apply, drop_created_table, drop_created_index, drop_added_column, drop_created_key,
  }

  -- A revision is one transaction: an error in it leaves the schema as it was.
  unfoldable pub run : List Operation → Schema → Option Schema
  run [] s = some s
  run (op ∷ ops) s = and_then (apply op s) (run ops)

  run-snoc :
      (ops : List Operation) (op : Operation) (s s' : Schema)
      → run ops s ≡ some s'
      → run (ops ++ op ∷ []) s ≡ apply op s'
  unfolding run
  run-snoc [] op s s' e =
      ap (λ m. and_then m some) (ap (apply op) (unwrap e)) ∙ and_then-some (apply op s')
  run-snoc (o ∷ ops) op s s' e =
      let (t, first, rest) = and_then-eq-some (apply o s) (run ops) s' e in
      ap (λ m. and_then m (run (ops ++ op ∷ []))) first ∙ run-snoc ops op t s' rest

  undone :
      (op back : Operation) (s s' : Schema)
      → inverse op ≡ some back
      → apply op s ≡ some s'
      → apply back s' ≡ some s
  undone (create_table t columns unique) back s s' e h =
      subst (λ o. apply o s' ≡ some s) (unwrap e) (drop_created_table t columns unique s s' h)
  undone (create_index name t columns) back s s' e h =
      subst (λ o. apply o s' ≡ some s) (unwrap e) (drop_created_index name t columns s s' h)
  undone (add_column t c) back s s' e h =
      subst (λ o. apply o s' ≡ some s) (unwrap e) (drop_added_column t c s s' h)
  undone (create_foreign_key name t target column) back s s' e h =
      subst (λ o. apply o s' ≡ some s) (unwrap e) (drop_created_key name t target column s s' h)
  undone (drop_table t) back s s' e h = cc
  undone (drop_index name t) back s s' e h = cc
  undone (drop_column t name) back s s' e h = cc
  undone (set_default t name text) back s s' e h = cc
  undone (drop_constraint name t) back s s' e h = cc

  run-mirror :
      (up down : List Operation) (s s' : Schema)
      → mirror up ≡ some down
      → run up s ≡ some s'
      → run down s' ≡ some s
  unfolding run
  run-mirror [] down s s' m e = subst (λ d. run d s' ≡ some s) (unwrap m) (ap some (sym (unwrap e)))
  run-mirror (op ∷ up) down s s' m e =
      let (t, first, rest) = and_then-eq-some (apply op s) (run up) s' e in
      let (back, inv, more) =
        and_then-eq-some (inverse op) (λ b. and_then (mirror up) (λ d. some (d ++ b ∷ []))) down
          m in
      let (down', mirrored, whole) =
        and_then-eq-some (mirror up) (λ d. some (d ++ back ∷ [])) down more in
      subst (λ d. run d s' ≡ some s) (unwrap whole)
        (run-snoc down' back s' t (run-mirror up down' t s' mirrored rest)
          ∙ undone op back s t inv first)

  -- The revisions that only make tables, indexes, columns and keys.
  abbrev pub Reversible : Revision → Type 0
  Reversible runs_updated_at_default = ⊥
  Reversible drop_prompt_variant = ⊥
  Reversible _ = Unit

  mirrored : (r : Revision) → Reversible r → mirror (upgrade r) ≡ some (downgrade r)
  unfolding upgrade downgrade
  mirrored initial_schema h = refl
  mirrored human_request_free_text h = refl
  mirrored human_request_artifact h = refl
  mirrored model_calls_ledger h = refl
  mirrored prompt_variant h = refl
  mirrored provider_reasoning_columns h = refl
  mirrored control_mode_pending h = refl
  mirrored runs_updated_at_default h = absurd h
  mirrored drop_prompt_variant h = absurd h

  -- For every revision but 0002 and 0007, `downgrade` after `upgrade` gives back the schema of
  -- before, whatever that was: it drops what `upgrade` made, all of it, from the end. In PostgreSQL
  -- what was just made can be dropped again, which leaves the schema of before.
  pub downgrade-upgrade :
      (r : Revision) (s s' : Schema)
      → Reversible r
      → run (upgrade r) s ≡ some s'
      → run (downgrade r) s' ≡ some s
  downgrade-upgrade r s s' h e = run-mirror (upgrade r) (downgrade r) s s' (mirrored r h) e
