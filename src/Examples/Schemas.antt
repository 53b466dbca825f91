-- ===== src/Examples/Schemas.antt =====
-- Types and definitions of a small schema.
use fabric_es.Prelude.{◌≡◌, true, false, none, some, List, [], ◌∷◌, is_some}
use fabric_es.Schema.{
  TypeNode, named_type, non_null_type, list_type, FieldNode, parse_type, check_desc,
}
use fabric_es.Schema.Definitions.{with_fields, build_object_type}
use fabric_es.Schema.Types.{parse_type-depth}
use fabric_es.Schema.Objects.{build_object_type-references}

-- `[Int!]`: a list that may be null, of which no element is.
abbrev numbers : TypeNode
numbers = list_type (non_null_type (named_type "Int"))

parse_type-depth_example :
    parse_type numbers
    ≡ some (record { data_type = "Int"; is_primitive = true; is_list = true; is_null = false })
parse_type-depth_example = parse_type-depth numbers

abbrev fields : List FieldNode
fields =
    record { is_field = true; name = "n"; type = numbers; description = none }
    ∷ record {
      is_field = true;
      name = "owner";
      type = non_null_type (named_type "User");
      description = some "the owner";
    }
    ∷ []

build_object_type-references_example :
    (is_some (build_object_type (with_fields none fields) false).result ≡ true)
    × ((build_object_type (with_fields none fields) false).found ≡ some ("User" ∷ []))
unfolding check_desc
build_object_type-references_example = build_object_type-references none fields false
