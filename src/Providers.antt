-- ===== src/Providers.antt =====
-- api/providers.py, with the ProviderCatalogItem of schemas.py.
use z_apply_backend.Base.{String, ◌≡◌, Bool, Option, none, some, List, [], ◌∷◌, ap, ◌∙◌}
use z_apply_backend.Json.{Value, str, arr, Elements, no_elements, element, Fields}
use z_apply_backend.Schemas.Bodies.{◌>>=◌, bind-some, required, parsed}

-- class ProviderCatalogItem
pub record ProviderCatalogItem : Type 0 where
  pub name : String
  pub description : String
  pub default_model : String
  pub suggested_models : List String
  pub env_key : String
  pub configured : Bool
  pub is_default : Bool

-- `list[str]`
unfoldable pub texts_of : Elements → Option (List String)
texts_of no_elements = some []
texts_of (element (str s) values) = do rest ← texts_of values; some (s ∷ rest)
texts_of (element _ values) = none

abbrev text_list : Value → Option (List String)
text_list (arr values) = texts_of values
text_list _ = none

-- `ProviderCatalogItem(**item)`; `boolean` is what pydantic takes for a bool, and `none` is a
-- ValidationError.
unfoldable pub catalog_item : (Value → Option Bool) → Fields → Option ProviderCatalogItem
unfolding required texts_of
catalog_item boolean item = do
  name ← required (parsed some) "name" item
  description ← required (parsed some) "description" item
  default_model ← required (parsed some) "default_model" item
  suggested_models ← required text_list "suggested_models" item
  env_key ← required (parsed some) "env_key" item
  configured ← required boolean "configured" item
  is_default ← required boolean "is_default" item
  some (record {
    name = name;
    description = description;
    default_model = default_model;
    suggested_models = suggested_models;
    env_key = env_key;
    configured = configured;
    is_default = is_default;
  })

-- `list_providers_catalog`, for the catalog of the Core: one item that is refused fails the whole
-- answer.
unfoldable pub list_providers_catalog :
    (Value → Option Bool) → List Fields → Option (List ProviderCatalogItem)
unfolding catalog_item
list_providers_catalog boolean [] = some []
list_providers_catalog boolean (item ∷ items) = do
  first ← catalog_item boolean item
  rest ← list_providers_catalog boolean items
  some (first ∷ rest)

-- The answer is of an item for each one of the catalog, in the same order, or there is none.
abbrev pub Catalogs : (Value → Option Bool) → List Fields → List ProviderCatalogItem → Type 0
Catalogs boolean [] [] = Unit
Catalogs boolean (item ∷ items) (shown ∷ more) =
    (catalog_item boolean item ≡ some shown) × Catalogs boolean items more
Catalogs boolean [] (shown ∷ more) = ⊥
Catalogs boolean (item ∷ items) [] = ⊥

pub list_providers_catalog-Catalogs :
    (boolean : Value → Option Bool) (items : List Fields) (answer : List ProviderCatalogItem)
    → list_providers_catalog boolean items ≡ some answer
    → Catalogs boolean items answer
unfolding list_providers_catalog
list_providers_catalog-Catalogs boolean [] [] e = tt
list_providers_catalog-Catalogs boolean [] (shown ∷ more) e = cc
list_providers_catalog-Catalogs boolean (item ∷ items) [] e =
    let (first, f, e1) = bind-some (catalog_item boolean item) _ [] e in
    let (rest, g, e2) = bind-some (list_providers_catalog boolean items) _ [] e1 in cc
list_providers_catalog-Catalogs boolean (item ∷ items) (shown ∷ more) e =
    let (first, f, e1) = bind-some (catalog_item boolean item) _ (shown ∷ more) e in
    let (rest, g, e2) = bind-some (list_providers_catalog boolean items) _ (shown ∷ more) e1 in
    let same : first ≡ shown = cc in
    let same_rest : rest ≡ more = cc in
    (f ∙ ap some same, list_providers_catalog-Catalogs boolean items more (g ∙ ap some same_rest))
