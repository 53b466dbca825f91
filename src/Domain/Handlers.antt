-- ===== src/Domain/Handlers.antt =====
-- What the command handlers of all domains share: the errors of packages/gateway-lib/src/utils/errors.ts
-- and the shape "read the entity, refuse if there is none, save events".
pub mod Effects
use fabric_es.Prelude.{
  ℕ, String, ◌≡◌, ◌≢◌, refl, ◌∙◌, ap, sym, Bool, true, false, Option, none, some, List, [], ◌∷◌,
  ◌++◌, foldl, Result, ok, throw, Error, new_error, is_some, Option-cases, inl, inr, arith,
  ok-injective, Result-cases, if◌then◌else◌,
}
use mathlib.Core.List.{foldl-append}
use fabric_es.Prelude.Action.{Action, raise, ◌>>=◌, continue}
use fabric_es.Types.{Event, Commit, Payload, Lifecycle}
use fabric_es.Reducer.{Entity, Callback, Reducer, get_reducer, reduce_step, stamp}
use fabric_es.Repository.{Repo, IsRepo, Found, save_found}

abbrev pub invalid_operation : Error
invalid_operation = new_error "INVALID_OPERATION"

abbrev pub required_data_missing : Error
required_data_missing = new_error "REQUIRED_DATA_MISSING"

abbrev pub entity_missing : Error
entity_missing = new_error "ENTITY_MISSING"

-- `{...entity}` of an entity that may be undefined, with a domain part for that case.
abbrev pub spread : {D : Type 0} → D → Option (Entity D) → Entity D
spread blank none = record {
  id = none;
  domain = blank;
  creator = none;
  created = none;
  ts = none;
  organization = none;
  private_data = none;
}
spread blank (some n) = n

-- A new object with an `id`, without any of the library's fields.
abbrev pub fresh : {D : Type 0} → Option String → D → Entity D
fresh id d = record {
  id = id;
  domain = d;
  creator = none;
  created = none;
  ts = none;
  organization = none;
  private_data = none;
}

-- An event with a payload that holds a domain part alone.
abbrev pub plain : {P : Type 0} → String → Option Lifecycle → P → Event P
plain type life_cycle body = record {
  type = type;
  life_cycle = life_cycle;
  payload = record {
    body = body;
    id = none;
    entity_name = none;
    tag = none;
    creator = none;
    created = none;
    ts = none;
  };
}

abbrev pub reducer_of : {P D : Type 0} → Callback P D → Reducer P D
reducer_of callback history = get_reducer callback history none

module _ {P D : Type 0} (repo : Repo P D) where
  -- `getById(…).then(({ currentState, save }) => …)` where a missing entity is refused first; what
  -- comes next decides on events, or throws.
  unfoldable pub update_existing :
      String → Error → (Entity D → Result (List (Event P))) → Action repo.Db (Commit P)
  update_existing id missing decide = do
    found ← repo.get_by_id id
    elim found.current_state [
      | none ↦ raise missing
      | some n ↦ elim (decide n) [ throw e ↦ raise e | ok events ↦ save_found repo id found events ]
    ]

  -- `getById(…).then(({ save }) => save({ events }))`
  unfoldable pub append_events : String → List (Event P) → Action repo.Db (Commit P)
  append_events id events = do found ← repo.get_by_id id; save_found repo id found events

-- The reduced state of an entity, as `getById` gives it.
module _ {P D : Type 0} {repo : Repo P D} (callback : Callback P D)
    (laws : IsRepo repo (reducer_of callback)) where
  abbrev pub state_of : repo.Db → String → Option (Entity D)
  state_of db id = reducer_of callback (laws.history db id)
