-- ===== src/Schema/Objects.antt =====
-- Which definitions `buildObjectType` includes, and the types that it finds.
use mathlib.Core.List.{append-nil, append_assoc}
use fabric_es.Prelude.{
  String, ◌≡◌, refl, ◌∙◌, sym, Bool, Bool-cases, inl, inr, true, false, not, ◌&&◌, ◌||◌, Option,
  none, some, List, [], ◌∷◌, ◌++◌, any, is_some, leb, arith, if◌then◌else◌,
}
use fabric_es.Schema.{FieldNode, find_data_type, check_desc, has_desc, is_scalar, Desc}
use fabric_es.Schema.Definitions.{
  with_fields, Gathered, gather_field, gather_fields, build_object_type, built, Contents, initial,
  entry_contents,
}
use fabric_es.Schema.Types.{base, depth, parse_type-depth}

-- A description that is neither of the schema nor empty.
abbrev pub is_documented : Option String → Bool
is_documented d = has_desc (check_desc false d).0

abbrev pub documents : FieldNode → Bool
documents f = f.is_field && is_documented f.description

-- The type that a field refers to: the one inside, if it is not a scalar.
abbrev pub reference_of : FieldNode → List String
reference_of f =
    if f.is_field && (leb (depth f.type) 10 && not (is_scalar (base f.type)))
    then base f.type ∷ []
    else []

abbrev pub references : List FieldNode → List String
references [] = []
references (f ∷ fs) = reference_of f ++ references fs

noted : (b included : Bool) → (if b then true else included) ≡ (included || b)
noted b included = ground arith

listed :
    (b : Bool) (names : List String) (name : String)
    → (if b then names else names ++ name ∷ []) ≡ names ++ (if not b then name ∷ [] else [])
listed true names name = sym (append-nil names)
listed false names name = refl

gather_field_lem :
    (g : Gathered) (f : FieldNode)
    → ((gather_field g f).included ≡ (g.included || documents f))
      × ((gather_field g f).found ≡ g.found ++ reference_of f)
unfolding gather_field find_data_type
gather_field_lem g f = elim (Bool-cases f.is_field) [
  | inl y ↦ elim (Bool-cases (leb (depth f.type) 10)) [
    | inl k ↦
        rw (y, parse_type-depth f.type, k)
          (
            noted (is_documented f.description) g.included,
            listed (is_scalar (base f.type)) g.found (base f.type),
          )
    | inr n ↦
        rw (y, parse_type-depth f.type, n)
          (noted (is_documented f.description) g.included, sym (append-nil g.found))
  ]
  | inr n ↦ rw n (ground arith, sym (append-nil g.found))
]

gather_fields_lem :
    (fs : List FieldNode) (g : Gathered)
    → ((gather_fields g fs).included ≡ (g.included || any documents fs))
      × ((gather_fields g fs).found ≡ g.found ++ references fs)
unfolding gather_fields
gather_fields_lem [] g = (ground arith, sym (append-nil g.found))
gather_fields_lem (f ∷ fs) g =
    let (included, found) = gather_field_lem g f in
    let (rest, more) = gather_fields_lem fs (gather_field g f) in
    (
      ground (arith, included, rest),
      more ∙ rw found (append_assoc g.found (reference_of f) (references fs)),
    )

built_lem :
    (d : Desc) (description : Option String) (b : Bool) (c : Contents) (found : List String)
    → (is_some (built d description b c found).result ≡ b)
      × ((built d description b c found).found ≡ (if b then some found else none))
built_lem d description true c found = (refl, refl)
built_lem d description false c found = (refl, refl)

-- For a definition with fields, buildObjectType gives an entry exactly if it is asked to include
-- the definition, or the definition or one of its fields is documented; the types that it then
-- finds are those inside the types of the fields, in order, without scalars and types with more
-- than ten marks, and otherwise there are none.
pub build_object_type-references :
    (d : Option String) (fs : List FieldNode) (i : Bool)
    → let included = i || (is_documented d || any documents fs) in
      (is_some (build_object_type (with_fields d fs) i).result ≡ included)
      × ((build_object_type (with_fields d fs) i).found
          ≡ (if included then some (references fs) else none))
unfolding build_object_type
build_object_type-references d fs i =
    let g = initial (if is_documented d then true else i) in
    let (included, found) = gather_fields_lem fs g in
    let (shown, listed) =
      built_lem (check_desc false d).0 d (gather_fields g fs).included
        (entry_contents (gather_fields g fs).fields []) (gather_fields g fs).found in
    let same_test : (gather_fields g fs).included ≡ (i || (is_documented d || any documents fs)) =
      ground (arith, included) in
    (shown ∙ same_test, listed ∙ rw (same_test, found) refl)
