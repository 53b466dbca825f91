-- ===== src/Store/GetById.antt =====
-- packages/fabric-cqrs/src/utils/commandGetById.ts and queryGetById.ts: what they make of the commits
-- that a dispatch has found. `version` is what the function `save` has captured.
use fabric_es.Prelude.{
  ℕ, ◌≡◌, refl, true, Option, none, some, length, Result, ok, Dict, values, truthy, all, arith,
  ◌>>=◌, if◌then◌else◌,
}
use fabric_es.Types.{Commit}
use fabric_es.Reducer.{Entity, Reducer, compute_entity}
use fabric_es.Reducer.Compute.{history_of, has_events, IsTracked, compute_entity-IsTracked}
use fabric_es.Repository.{Found}

abbrev pub nothing_found : {D : Type 0} → Found D
nothing_found = record { current_state = none; version = none }

module _ {D : Type 0} where
  -- An entity without an id counts as none.
  abbrev pub with_id : Option (Entity D) → Option (Entity D)
  with_id none = none
  with_id (some n) = if truthy n.id then some n else none

  with_id_lem :
      (m : Entity D) (version : ℕ)
      → (elim (with_id (some m)) [
        | none ↦ ok nothing_found
        | some n ↦ ok (record { current_state = some n; version = some version })
      ])
        ≡ ok (
            if truthy m.id
            then record { current_state = some m; version = some version }
            else nothing_found)
  with_id_lem m version = ground arith

module _ {P D : Type 0} where
  unfoldable pub command_get_by_id : Reducer P D → Option (Dict (Commit P)) → Result (Found D)
  unfolding compute_entity
  command_get_by_id reducer none = ok nothing_found
  command_get_by_id reducer (some commits) = do
    r ← compute_entity (values commits) reducer
    ok (record { current_state = r.state; version = some (length commits) })

  unfoldable pub query_get_by_id :
      Option (Reducer P D) → Option (Dict (Commit P)) → Result (Found D)
  unfolding compute_entity
  query_get_by_id none commits = ok nothing_found
  query_get_by_id (some reducer) none = ok nothing_found
  query_get_by_id (some reducer) (some commits) = do
    r ← compute_entity (values commits) reducer
    elim (with_id r.state) [
      | none ↦ ok nothing_found
      | some n ↦ ok (record { current_state = some n; version = some (length commits) })
    ]

  -- For found commits that all have events, and a reducer that makes of them an entity without
  -- tracking fields, commandGetById and queryGetById return the same entity, with the tracking
  -- fields, and a save at the version that is the number of the commits; only if the entity has no
  -- id, queryGetById returns neither.
  pub get_by_id-IsTracked :
      (reducer : Reducer P D) (commits : Dict (Commit P)) (n : Entity D)
      → all has_events (values commits) ≡ true
      → reducer (history_of (values commits)) ≡ some n
      → n.organization ≡ none
      → n.private_data ≡ none
      → (m : Entity D) × IsTracked (values commits) n m
        × (command_get_by_id reducer (some commits)
            ≡ ok (record { current_state = some m; version = some (length commits) }))
        × (query_get_by_id (some reducer) (some commits)
            ≡ ok (
                if truthy n.id
                then record { current_state = some m; version = some (length commits) }
                else nothing_found))
  unfolding command_get_by_id query_get_by_id
  get_by_id-IsTracked reducer commits n h r o p =
      let (m, computed, tracked) = compute_entity-IsTracked (values commits) reducer n h r o p in
      (
        m,
        tracked,
        rw (command_get_by_id, computed) refl,
        rw (query_get_by_id, computed) (rw (← tracked.id) (with_id_lem m (length commits))),
      )
