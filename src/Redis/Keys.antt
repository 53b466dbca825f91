-- ===== src/Redis/Keys.antt =====
-- packages/fabric-cqrs/src/queryHandler/createRedisRepository.ts: keys, patterns, the order of
-- restored commits, and the errors of a pipeline.
use Prim.Native.Char.{code}
use fabric_es.Prelude.{
  ℕ, String, Bool, true, false, ◌&&◌, Option, none, some, List, [], ◌∷◌, Result, ok, throw, Error,
  type_error, leb, eqb, truthy, text_of, any, is_some, ◌+◌, if◌then◌else◌,
}
use fabric_es.Types.{Commit}
use fabric_es.Redis.Selectors.{OutputCommit, ◌+++◌}

-- `getPattern`
pub data Pattern : Type 0 where
  commits_by_entity_name : String → Pattern
  commits_by_entity_name_entity_id : String → String → Pattern
  entities_by_entity_name : String → Pattern
  entities_by_entity_name_entity_id : String → String → Pattern

unfoldable pub get_pattern : Pattern → String
get_pattern (commits_by_entity_name name) = "c:" +++ name +++ ":*"
get_pattern (commits_by_entity_name_entity_id name id) = "c:" +++ name +++ ":" +++ id +++ ":*"
get_pattern (entities_by_entity_name name) = "e:" +++ name +++ ":*"
get_pattern (entities_by_entity_name_entity_id name id) = "e:" +++ name +++ ":" +++ id +++ ":*"

-- `getKey` of the repository of an entity, and of the commit repository.
unfoldable pub entity_key : String → Option String → Option String
entity_key name id = if truthy id then some ("e:" +++ name +++ ":" +++ text_of id) else none

-- The first element of the pair that a repository returns: what was caught, or one error or none
-- for each command.
pub data Errors : Type 0 where
  caught : Error → Errors
  each : List (Option Error) → Errors

-- `errors?.reduce((pre, cur) => pre || !!cur, false)`: an `Error` has no `reduce`.
unfoldable pub is_error : Errors → Result Bool
is_error (caught e) = throw type_error
is_error (each es) = ok (any is_some es)

-- `pong?.toLowerCase() === 'pong'`
abbrev lower : ℕ → ℕ
lower c = if leb b'A' c && leb c b'Z' then c + 32 else c

abbrev lower_codes : String → List ℕ
lower_codes String.[] = []
lower_codes (String.◌∷◌ c s) = lower (code c) ∷ lower_codes s

abbrev eq_codes : List ℕ → List ℕ → Bool
eq_codes [] [] = true
eq_codes (a ∷ as') (b ∷ bs) = eqb a b && eq_codes as' bs
eq_codes _ _ = false

unfoldable pub is_pong : String → Bool
is_pong s = eq_codes (lower_codes s) (b'p' ∷ b'o' ∷ b'n' ∷ b'g' ∷ [])

-- `sort((a, b) => a.ts - b.ts)`; a difference with NaN counts as 0.
abbrev pub ts_le : Option ℕ → Option ℕ → Bool
ts_le (some a) (some b) = leb a b
ts_le _ _ = true

module _ {P : Type 0} where
  unfoldable pub commit_key : Commit P → Option String
  commit_key c =
      if truthy c.entity_name && (truthy c.entity_id && truthy c.commit_id)
      then some (
          "c:"
          +++ text_of c.entity_name
          +++ ":"
          +++ text_of c.entity_id
          +++ ":"
          +++ text_of c.commit_id)
      else none

  unfoldable pub insert_by_ts : OutputCommit P → List (OutputCommit P) → List (OutputCommit P)
  insert_by_ts c [] = c ∷ []
  insert_by_ts c (d ∷ ds) =
      let rest = insert_by_ts c ds in if ts_le c.ts d.ts then c ∷ d ∷ ds else d ∷ rest

  unfoldable pub sort_by_ts : List (OutputCommit P) → List (OutputCommit P)
  unfolding insert_by_ts
  sort_by_ts [] = []
  sort_by_ts (c ∷ cs) = insert_by_ts c (sort_by_ts cs)
