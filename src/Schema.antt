-- ===== src/Schema.antt =====
-- packages/gateway-lib/src/utils/schemaUtils.ts: what the catalogue of a service reads of a GraphQL
-- schema. Names are ASCII, as in GraphQL; of a description, the annotation at its start is. checkDesc
-- returns the value that the side effect is given; its callers leave it out.
pub mod Types
pub mod Objects
pub mod Definitions
use Prim.Native.Char.{code}
use fabric_es.Prelude.{
  ℕ, zero, suc, ◌-◌, String, Bool, true, false, not, ◌&&◌, ◌==◌, Option, none, some, List, [], ◌∷◌,
  ◌++◌, Dict, assign, eqb, leb, truthy, text_of, if◌then◌else◌,
}
use fabric_es.Types.Tags.{to_lower_case}
use fabric_es.Redis.Selectors.{◌+++◌}

-- A type of the schema: a name, `T!` or `[T]`.
pub data TypeNode : Type 0 where
  named_type : String → TypeNode
  non_null_type list_type : TypeNode → TypeNode

pub record Parsed : Type 0 where
  pub data_type : String
  pub is_primitive : Bool
  pub is_list : Bool
  pub is_null : Bool

abbrev pub is_scalar : String → Bool
is_scalar s =
    if s == "Int"
    then true
    else if s == "Float"
    then true
    else if s == "String"
    then true
    else if s == "Boolean"
    then true
    else s == "ID"

-- The loop of `parseType`, with the counter, `isNull` and `isList`.
unfoldable pub unwrap : ℕ → TypeNode → Bool → Bool → TypeNode × Bool × Bool
unwrap zero t is_null is_list = (t, is_null, is_list)
unwrap (suc n) (named_type s) is_null is_list = (named_type s, is_null, is_list)
unwrap (suc n) (non_null_type t) is_null is_list = unwrap n t false is_list
unwrap (suc n) (list_type t) is_null is_list = unwrap n t is_null true

abbrev pub parsed_type : TypeNode × Bool × Bool → Option Parsed
parsed_type (named_type s, is_null, is_list) =
    some
      (record { data_type = s; is_primitive = is_scalar s; is_list = is_list; is_null = is_null })
parsed_type (_, is_null, is_list) = none

-- An object without fields is `none`.
unfoldable pub parse_type : TypeNode → Option Parsed
unfolding unwrap
parse_type t = parsed_type (unwrap 10 t true false)

abbrev upper : ℕ → ℕ
upper c = if leb b'a' c && leb c b'z' then c - 32 else c

-- `s.toUpperCase().startsWith(p)`
unfoldable pub starts_with : String → String → Bool
starts_with String.[] s = true
starts_with (String.◌∷◌ c p) String.[] = false
starts_with (String.◌∷◌ c p) (String.◌∷◌ d s) =
    let rest = starts_with p s in eqb (upper (code d)) (code c) && rest

-- `s.substring(n)`
abbrev pub substring : ℕ → String → String
substring zero s = s
substring (suc n) String.[] = String.[]
substring (suc n) (String.◌∷◌ c s) = substring n s

-- What `checkDesc` tells, by the bits of its number: 0, 1, 3 and 4.
pub data Desc : Type 0 where
  no_desc with_desc main_desc schema_desc : Desc

abbrev pub has_desc : Desc → Bool
has_desc no_desc = false
has_desc with_desc = true
has_desc main_desc = true
has_desc schema_desc = false

abbrev pub is_main : Desc → Bool
is_main main_desc = true
is_main d = false

-- For a node that is the schema definition, or another one, with this description.
unfoldable pub check_desc : Bool → Option String → Desc × List String
unfolding starts_with
check_desc is_schema description =
    if truthy description
    then (if is_schema
        then (schema_desc, text_of description ∷ [])
        else if starts_with "@SCHEMA " (text_of description)
        then (schema_desc, substring 8 (text_of description) ∷ [])
        else if starts_with "@PRIMARY" (text_of description)
        then (main_desc, [])
        else (with_desc, []))
    else (no_desc, [])

-- A field of a type: `FieldDefinition`, or `InputValueDefinition` for an input.
pub record FieldNode : Type 0 where
  pub is_field : Bool
  pub name : String
  pub type : TypeNode
  pub description : Option String

pub record FieldEntry : Type 0 where
  pub type : String
  pub description : Option String
  pub required : Bool
  pub ref : Option String

pub record FoundType : Type 0 where
  pub field : FieldEntry
  pub data_type : String
  pub is_primitive : Bool

-- `findDataType` of a field.
unfoldable pub find_data_type : FieldNode → Option FoundType
unfolding parse_type check_desc
find_data_type f = elim (parse_type f.type) [
  | none ↦ none
  | some p ↦ some (record {
    field = record {
      type = if p.is_list then p.data_type +++ "[]" else p.data_type;
      description = if has_desc (check_desc false f.description).0 then f.description else none;
      required = not p.is_null;
      ref = if p.is_primitive then none else some (to_lower_case p.data_type);
    };
    data_type = p.data_type;
    is_primitive = p.is_primitive;
  })
]
