-- ===== src/Redis/Globs.antt =====
-- The patterns of packages/fabric-cqrs/src/queryHandler/createRedisRepository.ts as Redis reads them: a
-- text without special characters, and a star at the end.
use Prim.Native.Char.{code}
use Prim.Native.String.append as append
use fabric_es.Prelude.{String, ◌≡◌, refl, ap, sym, Bool, true, false, not, ◌&&◌, ◌||◌, eqb, arith}
use fabric_es.Redis.Selectors.{◌+++◌}
use fabric_es.Redis.Keys.{
  get_pattern, commits_by_entity_name, commits_by_entity_name_entity_id, entities_by_entity_name,
}

-- No character of the text is special in a pattern: `*`, `?`, `[`, `\`.
abbrev pub is_literal : String → Bool
is_literal String.[] = true
is_literal (String.◌∷◌ c s) =
    let rest = is_literal s in
    not (eqb (code c) b'*' || (eqb (code c) b'?' || (eqb (code c) b'[' || eqb (code c) 92))) && rest

abbrev pub has_prefix : String → String → Bool
has_prefix String.[] s = true
has_prefix (String.◌∷◌ p ps) String.[] = false
has_prefix (String.◌∷◌ p ps) (String.◌∷◌ c s) =
    let rest = has_prefix ps s in eqb (code p) (code c) && rest

is_literal-append :
    (s t : String) → is_literal s ≡ true → is_literal t ≡ true → is_literal (s +++ t) ≡ true
is_literal-append String.[] t a b = rw append.nil b
is_literal-append (String.◌∷◌ c s) t a b =
    let rest = is_literal-append s t (ground arith) b in rw append.cons (ground arith)

pub append_assoc : (s t u : String) → (s +++ t) +++ u ≡ s +++ (t +++ u)
append_assoc String.[] t u = rw append.nil (rw append.nil refl)
append_assoc (String.◌∷◌ c s) t u =
    rw append.cons (rw append.cons (rw append.cons (ap (λ x. String.◌∷◌ c x) (append_assoc s t u))))

-- What the keys of the commits of an entity, of those of an entity name, and of the entities of an
-- entity name start with.
module _ (name : String) where
  abbrev pub commits_prefix : String
  commits_prefix = "c:" +++ name +++ ":"

  abbrev pub entities_prefix : String
  entities_prefix = "e:" +++ name +++ ":"

  abbrev pub entity_commits_prefix : String → String
  entity_commits_prefix id = "c:" +++ name +++ ":" +++ id +++ ":"

  pub get_pattern-commits : get_pattern (commits_by_entity_name name) ≡ commits_prefix +++ "*"
  unfolding get_pattern
  get_pattern-commits = sym (append_assoc ("c:" +++ name) ":" "*")

  pub get_pattern-entities : get_pattern (entities_by_entity_name name) ≡ entities_prefix +++ "*"
  unfolding get_pattern
  get_pattern-entities = sym (append_assoc ("e:" +++ name) ":" "*")

  pub get_pattern-entity_commits :
      (id : String)
      → get_pattern (commits_by_entity_name_entity_id name id) ≡ entity_commits_prefix id +++ "*"
  unfolding get_pattern
  get_pattern-entity_commits id = sym (append_assoc ("c:" +++ name +++ ":" +++ id) ":" "*")

  module _ (h : is_literal name ≡ true) where
    pub commits_prefix-is_literal : is_literal commits_prefix ≡ true
    commits_prefix-is_literal =
        is_literal-append ("c:" +++ name) ":" (is_literal-append "c:" name refl h) refl

    pub entities_prefix-is_literal : is_literal entities_prefix ≡ true
    entities_prefix-is_literal =
        is_literal-append ("e:" +++ name) ":" (is_literal-append "e:" name refl h) refl

    pub entity_commits_prefix-is_literal :
        (id : String) → is_literal id ≡ true → is_literal (entity_commits_prefix id) ≡ true
    entity_commits_prefix-is_literal id g =
        is_literal-append (commits_prefix +++ id) ":"
          (is_literal-append commits_prefix id commits_prefix-is_literal g) refl
