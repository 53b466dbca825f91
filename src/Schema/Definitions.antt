-- ===== src/Schema/Definitions.antt =====
-- packages/gateway-lib/src/utils/schemaUtils.ts: buildObjectType.
use fabric_es.Prelude.{
  String, Bool, true, false, Option, none, some, List, [], ◌∷◌, ◌++◌, Dict, assign, text_of,
  if◌then◌else◌,
}
use fabric_es.Types.Tags.{to_lower_case}
use fabric_es.Schema.{
  Desc, FieldEntry, FieldNode, check_desc, find_data_type, has_desc, is_main, is_scalar, substring,
}

-- A definition of the schema: with fields, a union of named types, the schema definition, or a scalar,
-- an enumeration or a directive.
pub data Definition : Type 0 where
  with_fields : Option String → List FieldNode → Definition
  union_type : Option String → List String → Definition
  schema_definition other_definition : Option String → Definition

abbrev pub description_of : Definition → Option String
description_of (with_fields d fs) = d
description_of (union_type d ts) = d
description_of (schema_definition d) = d
description_of (other_definition d) = d

abbrev pub is_schema : Definition → Bool
is_schema (schema_definition d) = true
is_schema d = false

-- What the loop over the fields has gathered.
pub record Gathered : Type 0 where
  pub included : Bool
  pub fields : Dict FieldEntry
  pub found : List String

unfoldable pub gather_field : Gathered → FieldNode → Gathered
unfolding find_data_type check_desc assign
gather_field g f =
    if f.is_field
    then elim (find_data_type f) [
      | none ↦ record g {
        included = if has_desc (check_desc false f.description).0 then true else g.included;
      }
      | some t ↦ record {
        included = if has_desc (check_desc false f.description).0 then true else g.included;
        fields = assign f.name t.field g.fields;
        found = if t.is_primitive then g.found else g.found ++ t.data_type ∷ [];
      }
    ]
    else g

unfoldable pub gather_fields : Gathered → List FieldNode → Gathered
unfolding gather_field
gather_fields g [] = g
gather_fields g (f ∷ fs) = gather_fields (gather_field g f) fs

-- The members of a union: a name with its reference, if it has one, and those with a reference.
unfoldable pub gather_types :
    Dict (Option String) × List String → List String → Dict (Option String) × List String
unfolding assign
gather_types g [] = g
gather_types (types, found) (s ∷ ss) =
    gather_types
      (
        assign s (if is_scalar s then none else some (to_lower_case s)) types,
        if is_scalar s then found else found ++ s ∷ [],
      )
      ss

-- What a built entry lists.
pub data Contents : Type 0 where
  no_contents : Contents
  fields_of : Dict FieldEntry → Contents
  types_of : Dict (Option String) → Contents

pub record ObjectEntry : Type 0 where
  pub description : Option String
  pub contents : Contents
  pub main : Bool

abbrev pub entry_contents : Dict FieldEntry → Dict (Option String) → Contents
entry_contents [] [] = no_contents
entry_contents [] (t ∷ ts) = types_of (t ∷ ts)
entry_contents (f ∷ fs) ts = fields_of (f ∷ fs)

-- `undefined` in both places if the definition is not included.
pub record Built : Type 0 where
  pub result : Option ObjectEntry
  pub found : Option (List String)

abbrev pub built : Desc → Option String → Bool → Contents → List String → Built
built d description false listed found = record { result = none; found = none }
built d description true listed found = record {
  result = some (record {
    description =
        if has_desc d
        then some (if is_main d then substring 8 (text_of description) else text_of description)
        else none;
    contents = listed;
    main = is_main d;
  });
  found = some found;
}

abbrev pub initial : Bool → Gathered
initial i = record { included = i; fields = []; found = [] }

unfoldable pub build_object_type : Definition → Bool → Built
unfolding check_desc gather_fields gather_types
build_object_type (with_fields d fs) i =
    let desc = (check_desc false d).0 in
    let g = gather_fields (initial (if has_desc desc then true else i)) fs in
    built desc d g.included (entry_contents g.fields []) g.found
build_object_type (union_type d ss) i =
    let desc = (check_desc false d).0 in
    let (types, found) = gather_types ([], []) ss in
    built desc d (if has_desc desc then true else i) (entry_contents [] types) found
build_object_type (schema_definition d) i =
    let desc = (check_desc true d).0 in
    built desc d (if has_desc desc then true else i) no_contents []
build_object_type (other_definition d) i =
    let desc = (check_desc false d).0 in
    built desc d (if has_desc desc then true else i) no_contents []
