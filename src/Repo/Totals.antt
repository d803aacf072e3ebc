-- ===== src/Repo/Totals.antt =====
-- The totals of the ledger against the calls that GET /runs/{id}/calls lists beside them.
use z_apply_backend.Base.{ℕ, Option, ◌≡◌, List, ◌∷◌, ◌++◌}
use z_apply_backend.Models.{ModelCallRow}

-- The sum of a list of costs does not depend on their order.
abbrev pub Unordered : (List (Option ℕ) → ℕ) → Type 0
Unordered sum_cost =
    (before : List (Option ℕ)) (a : Option ℕ) (after : List (Option ℕ))
    → sum_cost (before ++ a ∷ after) ≡ sum_cost (a ∷ before ++ after)

abbrev cost : ModelCallRow → Option ℕ
cost c = c.cost_usd
