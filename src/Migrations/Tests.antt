-- ===== src/Migrations/Tests.antt =====
-- A schema that is the list of the operations that made it.
use z_apply_backend.Base.{◌≡◌, refl, Option, none, some, List, [], ◌∷◌, arith}
use z_apply_backend.Migrations.{
  runs, Operation, create_table, create_index, add_column, set_default, create_foreign_key,
}
use z_apply_backend.Migrations.Agreement.{shape_of, migrated, migrated-declared}
use z_apply_backend.Migrations.Declared.{declared}
use z_apply_backend.Migrations.Later.{human_request_artifact, upgrade, downgrade, history}
use z_apply_backend.Migrations.Reversible.{Ddl, run, downgrade-upgrade}

abbrev pop : List Operation → Option (List Operation)
pop [] = none
pop (op ∷ s) = some s

abbrev journal_apply : Operation → List Operation → Option (List Operation)
journal_apply (create_table t columns unique) s = some (create_table t columns unique ∷ s)
journal_apply (create_index name t columns) s = some (create_index name t columns ∷ s)
journal_apply (add_column t c) s = some (add_column t c ∷ s)
journal_apply (create_foreign_key name t u column) s = some (create_foreign_key name t u column ∷ s)
journal_apply (set_default t name expression) s = some s
journal_apply _ s = pop s

popped : (op : Operation) (s s' : List Operation) → some (op ∷ s) ≡ some s' → pop s' ≡ some s
popped op s s' e = ground arith

abbrev journal : Ddl
journal = record {
  Schema = List Operation;
  apply = journal_apply;
  drop_created_table = λ t columns unique s s' e. popped _ s s' e;
  drop_created_index = λ name t columns s s' e. popped _ s s' e;
  drop_added_column = λ t c s s' e. popped _ s s' e;
  drop_created_key = λ name t u column s s' e. popped _ s s' e;
}

abbrev two_steps : List Operation
two_steps = elim (run journal (upgrade human_request_artifact) []) [ none ↦ [] | some s ↦ s ]

downgrade-upgrade_example : run journal (downgrade human_request_artifact) two_steps ≡ some []
unfolding run upgrade
downgrade-upgrade_example = downgrade-upgrade journal human_request_artifact [] two_steps tt refl

migrated-declared_example :
    shape_of "control_mode" (migrated runs history []) ≡ shape_of "control_mode" (declared runs)
migrated-declared_example = migrated-declared runs "control_mode"
