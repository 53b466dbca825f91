-- ===== src/Schema/Types.antt =====
-- What `parseType` makes of a type.
use fabric_es.Prelude.{
  ℕ, zero, suc, String, ◌≡◌, ◌∙◌, Bool, true, false, not, ◌&&◌, ◌||◌, none, some, leb, arith,
  if◌then◌else◌,
}
use fabric_es.Schema.{
  TypeNode, named_type, non_null_type, list_type, Parsed, is_scalar, unwrap, parsed_type,
  parse_type,
}

-- The name inside, the number of marks around it, and which marks there are.
abbrev pub base : TypeNode → String
base (named_type s) = s
base (non_null_type t) = base t
base (list_type t) = base t

abbrev pub depth : TypeNode → ℕ
depth (named_type s) = 0
depth (non_null_type t) = suc (depth t)
depth (list_type t) = suc (depth t)

abbrev pub has_non_null : TypeNode → Bool
has_non_null (named_type s) = false
has_non_null (non_null_type t) = true
has_non_null (list_type t) = has_non_null t

abbrev pub has_list : TypeNode → Bool
has_list (named_type s) = false
has_list (non_null_type t) = has_list t
has_list (list_type t) = true

-- What is read of a type, before the limit of the loop.
abbrev pub reading : TypeNode → Bool → Bool → Parsed
reading t is_null is_list = record {
  data_type = base t;
  is_primitive = is_scalar (base t);
  is_list = is_list || has_list t;
  is_null = is_null && not (has_non_null t);
}

unwrap_lem :
    (n : ℕ) (t : TypeNode) (is_null is_list : Bool)
    → parsed_type (unwrap n t is_null is_list)
      ≡ (if leb (depth t) n then some (reading t is_null is_list) else none)
unfolding unwrap
unwrap_lem zero (named_type s) is_null is_list = ground arith
unwrap_lem zero (non_null_type t) is_null is_list = ground arith
unwrap_lem zero (list_type t) is_null is_list = ground arith
unwrap_lem (suc n) (named_type s) is_null is_list = ground arith
unwrap_lem (suc n) (non_null_type t) is_null is_list = unwrap_lem n t false is_list ∙ ground arith
unwrap_lem (suc n) (list_type t) is_null is_list = unwrap_lem n t is_null true ∙ ground arith

-- parseType of a type with at most ten marks (a non-null or a list) around a name gives this name,
-- whether it is a scalar, whether there is a list anywhere, and, as not null, whether there is a
-- non-null mark anywhere; with more than ten marks it gives nothing.
pub parse_type-depth :
    (t : TypeNode) → parse_type t ≡ (if leb (depth t) 10 then some (reading t true false) else none)
unfolding parse_type
parse_type-depth t = unwrap_lem 10 t true false
