-- ===== src/Repository.antt =====
-- packages/fabric-cqrs/src/types/repository.ts: what a command handler uses of a repository, as an
-- interface, and the laws that the proofs about handlers rely on.
pub mod Mock
use fabric_es.Prelude.{
  ℕ, String, ◌≡◌, ◌≢◌, Option, none, some, List, ◌++◌, Result, ok, throw, type_error, is_some,
  if◌then◌else◌,
}
use fabric_es.Prelude.Action.{Action, raise}
use fabric_es.Types.{Event, Commit}
use fabric_es.Reducer.{Entity, Reducer}

-- What `getById` resolves to. `version` is what the function `save` has captured, `none` if `save`
-- is null.
pub record Found (D : Type 0) : Type 0 where
  pub current_state : Option (Entity D)
  pub version : Option ℕ

pub record Repo (P D : Type 0) : Type 1 where
  pub Db : Type 0
  pub create : String → List (Event P) → Action Db (Commit P)
  pub get_by_id : String → Action Db (Found D)
  pub save : String → ℕ → List (Event P) → Action Db (Commit P)

module _ {P D : Type 0} (repo : Repo P D) where
  -- Calling `save`, which may be null.
  abbrev pub save_found : String → Found D → List (Event P) → Action repo.Db (Commit P)
  save_found id found events = elim found.version [
    | none ↦ raise type_error
    | some version ↦ repo.save id version events
  ]

-- A database has a history of events for each id. In a valid one, reading gives the reduction of a
-- history; a write at a moment when the repository is ready appends to one of them.
pub record IsRepo {P D : Type 0} (repo : Repo P D) (reducer : Reducer P D) : Type 1 where
  pub history : repo.Db → String → List (Event P)
  pub Valid : repo.Db → Type 0
  pub Ready : repo.Db → Type 0
  pub found :
      (id : String) (db : repo.Db)
      → Valid db
      → (n : ℕ) × (repo.get_by_id id db
          ≡ (ok (record { current_state = reducer (history db id); version = some n }), db))
  pub created :
      (id : String) (es : List (Event P)) (db : repo.Db)
      → Valid db
      → Ready db
      → (c : Commit P) × (db' : repo.Db) × (repo.create id es db ≡ (ok c, db'))
        × Valid db'
        × (history db' id ≡ history db id ++ es)
        × ((j : String) → id ≢ j → history db' j ≡ history db j)
  pub saved :
      (id : String) (n : ℕ) (es : List (Event P)) (db : repo.Db)
      → Valid db
      → Ready db
      → (c : Commit P) × (db' : repo.Db) × (repo.save id n es db ≡ (ok c, db'))
        × Valid db'
        × (history db' id ≡ history db id ++ es)
        × ((j : String) → id ≢ j → history db' j ≡ history db j)
