-- ===== src/Api/Schemas.antt =====
-- api/model.go: NewSchema. AddType of go-rancher makes a schema of a Go type by reflection: it is a
-- parameter, by the name of the type.
use cube_apiserver.Prelude.{
  Str, str, Bool, true, false, List, [], ◌∷◌, ◌≡◌, refl, ◌==◌, if◌then◌else◌,
}
use cube_apiserver.Api.Resources.{base_info_type, infrastructure_type}

-- What the code sets of client.Field.
pub record Field : Type 0 where
  pub field_type : Str
  pub nullable : Bool
  pub create : Bool
  pub required : Bool
  pub unique : Bool

pub record Schema : Type 0 where
  pub collection_methods : List Str
  pub resource_methods : List Str
  pub resource_fields : List (Str × Field)

abbrev pub zero_field : Field
zero_field = record {
  field_type = [];
  nullable = false;
  create = false;
  required = false;
  unique = false;
}

-- A key that a map does not have reads as the zero field.
unfoldable pub field_at : Str → List (Str × Field) → Field
field_at name [] = zero_field
field_at name ((key, f) ∷ fields) =
    let rest = field_at name fields in if key == name then f else rest

abbrev pub set_field : Str → Field → List (Str × Field) → List (Str × Field)
set_field name f fields = (name, f) ∷ fields

-- client.Field with the type "struct".
abbrev pub struct_field : Field
struct_field = record zero_field { field_type = str "struct"; nullable = true }

abbrev pub read_only : Schema → List (Str × Field) → Schema
read_only schema fields = record schema {
  collection_methods = str "GET" ∷ [];
  resource_methods = str "GET" ∷ [];
  resource_fields = fields;
}

-- clusterSchema
abbrev pub cluster_schema : Schema → Schema
cluster_schema s = read_only s (
    set_field (str "componentStatuses") struct_field
      (set_field (str "resources") struct_field s.resource_fields))

-- nodeSchema
abbrev pub node_schema : Schema → Schema
node_schema s = read_only s (set_field (str "node") struct_field s.resource_fields)

-- baseInfoschema
abbrev pub base_info_schema : Schema → Schema
base_info_schema s = read_only s (set_field base_info_type struct_field s.resource_fields)

-- infraSchema
abbrev pub infra_schema : Schema → Schema
infra_schema s =
    let fields = set_field infrastructure_type struct_field s.resource_fields in
    let kind = field_at (str "kind") fields in
    record {
      collection_methods = str "GET" ∷ str "POST" ∷ [];
      resource_methods = str "GET" ∷ str "DELETE" ∷ [];
      resource_fields =
          set_field (str "kind") (record kind { create = true; required = true; unique = true })
            fields;
    }

-- NewSchema: the types with their schemas, in order.
unfoldable pub new_schema : (Str → Schema) → List (Str × Schema)
new_schema add_type =
    (str "apiVersion", add_type (str "apiVersion"))
    ∷ (str "schema", add_type (str "schema"))
    ∷ (str "error", add_type (str "error"))
    ∷ (str "node", node_schema (add_type (str "node")))
    ∷ (str "cluster", cluster_schema (add_type (str "cluster")))
    ∷ (base_info_type, base_info_schema (add_type base_info_type))
    ∷ (infrastructure_type, infra_schema (add_type infrastructure_type))
    ∷ []

-- The kind of a new infrastructure must be given.
infra_schema-kind :
    (s : Schema)
    → ((field_at (str "kind") (infra_schema s).resource_fields).required ≡ true)
      × ((field_at (str "kind") (infra_schema s).resource_fields).create ≡ true)
unfolding field_at ◌==◌
infra_schema-kind s = (refl, refl)
