-- ===== src/QueryDatabase/Entities.antt =====
-- packages/fabric-cqrs/src/queryHandler/createQueryDatabase.ts: `mergeEntity`, `mergeEntityBatch` and
-- `deleteEntityByEntityName`, the projection of commits into entities.
use fabric_es.Prelude.{
  ℕ, String, Bool, false, Option, none, some, List, [], ◌∷◌, ◌++◌, map, foldl, Result, ok, throw,
  Error, new_error, type_error, Dict, lookup, assign, values, truthy, text_of, length, is_some, any,
  select, same, eqb, if◌then◌else◌,
}
use fabric_es.Prelude.Action.{Action, pure, raise, lift, ◌>>=◌}
use fabric_es.Types.{Commit}
use fabric_es.Types.Guards.{is_commit}
use fabric_es.Reducer.{Entity, Reducer, Computed, compute_entity, or_empty}
use fabric_es.Redis.{Codec, Client}
use fabric_es.Redis.Keys.{
  Errors, caught, each, commits_by_entity_name_entity_id, entities_by_entity_name, get_pattern,
  commit_key, entity_key,
}
use fabric_es.Redis.Selectors.{OutputCommit, ◌+++◌}
use fabric_es.Redis.Repository.{EntityRepo, query_commits_by_pattern, hmset_commit, hmset_entity}
use fabric_es.Redis.Notification.{Response, Fields, notify, invalid_arg}
use fabric_es.QueryDatabase.{message_only, key_text, delete_items}

-- A key that was written, and the status that Redis answered.
pub record Written : Type 0 where
  pub key : Option String
  pub status : String

abbrev pub has_id : {D : Type 0} → Option (Entity D) → Bool
has_id none = false
has_id (some n) = truthy n.id

abbrev not_found : Error
not_found = new_error "entity repo not found"

abbrev fail_to_reduce : {P : Type 0} → Commit P → Error
fail_to_reduce c = new_error (
    "[FATAL_DATA_INTEGRITY_ERROR] fail to reduce, "
    +++ key_text c.entity_name
    +++ ":"
    +++ key_text c.entity_id
    +++ ":"
    +++ key_text c.commit_id)

abbrev pub reduce_error : {P : Type 0} → Commit P → Response (List Written)
reduce_error c =
    message_only "ERROR" "fail to reduce to currentState" none (some (some (fail_to_reduce c) ∷ []))

-- What `mergeEntityBatch` answers.
pub record Merged : Type 0 where
  pub status : String
  pub message : String
  pub written : List Written
  pub errors : Option (List String)

-- An entity of the batch, with the commits that it was computed from.
pub record Reduced (P D : Type 0) : Type 0 where
  pub state : Entity D
  pub commits : List (Commit P)
  pub key : Option String

module _ {P : Type 0} where
  abbrev pub head_id : List (Commit P) → Option String
  head_id [] = none
  head_id (c ∷ cs) = c.id

  unfoldable pub add_to_group : Dict (List (Commit P)) → Commit P → Dict (List (Commit P))
  add_to_group g c = assign (text_of c.id) (or_empty (lookup (text_of c.id) g) ++ c ∷ []) g

  -- `groupBy(filter(commits, { entityName }), ({ id }) => id)`
  unfoldable pub group_by_id : Option String → List (Commit P) → Dict (List (Commit P))
  unfolding add_to_group
  group_by_id name commits = foldl add_to_group [] (select (λ c. same c.entity_name name) commits)

module _ {P D : Type 0} (reducer : Reducer P D) where
  unfoldable pub keep_state :
      String
      → String
      → List (Commit P)
      → Computed D
      → List (Reduced P D) × List String
      → List (Reduced P D) × List String
  keep_state name id cs r (kept, errors) = elim r.state [
    | some n ↦
        (record { state = n; commits = cs; key = entity_key name (head_id cs) } ∷ kept, errors)
    | none ↦ (kept, if r.reduced then id ∷ errors else errors)
  ]

  -- The `map` and `filter` over the groups.
  unfoldable pub reduce_batch :
      String → Dict (List (Commit P)) → Result (List (Reduced P D) × List String)
  unfolding compute_entity keep_state entity_key
  reduce_batch name [] = ok ([], [])
  reduce_batch name ((id, cs) ∷ g) =
      let rest = reduce_batch name g in
      elim (compute_entity cs reducer) [
        | throw e ↦ throw e
        | ok r ↦ elim rest [ throw e ↦ throw e | ok kept ↦ ok (keep_state name id cs r kept) ]
      ]

module _ {P D X : Type 0} (client : Client X) (codec : Codec P)
    (repos : Dict (EntityRepo P D X)) where
  open client use {Db}

  unfoldable pub delete_entity_by_entity_name : Option String → Action Db (Response ℕ)
  unfolding delete_items lookup
  delete_entity_by_entity_name name =
      if truthy name
      then elim (lookup (text_of name) repos) [
        | none ↦ raise not_found
        | some repo ↦ delete_items client codec (entities_by_entity_name (text_of name))
      ]
      else raise invalid_arg

  -- Steps 4 to 6 of `mergeEntity`: the entity, the commit, the notification flag.
  unfoldable pub write_entity :
      EntityRepo P D X → Commit P → List (Commit P) → Entity D → Action Db (Response (List Written))
  unfolding hmset_entity hmset_commit notify commit_key entity_key
  write_entity repo c history n = do
    entity_status ← λ db. hmset_entity client codec repo db n history
    commit_status ← λ db. hmset_commit client codec db c
    λ db.
        let f : Fields = record {
          creator = n.creator;
          entity_name = c.entity_name;
          id = c.entity_id;
          commit_id = c.commit_id;
        } in
        let (_, db') = notify client f 86400 db in
        let key = entity_key repo.entity_name c.id in
        (
          ok (
              message_only "OK" (key_text key +++ " merged successfully")
                (some (
                  record { key = key; status = entity_status }
                  ∷ record { key = commit_key c; status = commit_status }
                  ∷ []))
                none),
          db',
        )

  -- The same for a commit that does not reduce: the commit alone.
  unfoldable pub write_commit : EntityRepo P D X → Commit P → Action Db (Response (List Written))
  unfolding hmset_commit commit_key entity_key
  write_commit repo c = do
    commit_status ← λ db. hmset_commit client codec db c
    pure (
        message_only "OK" (key_text (entity_key repo.entity_name c.id) +++ " merged successfully")
          (some (record { key = commit_key c; status = commit_status } ∷ [])) none)

  unfoldable pub write :
      EntityRepo P D X
      → Commit P
      → List (Commit P)
      → Computed D
      → Action Db (Response (List Written))
  unfolding write_entity write_commit
  write repo c history r =
      if r.reduced
      then elim r.state [
        | none ↦ pure (reduce_error c)
        | some n ↦ if truthy n.id then write_entity repo c history n else pure (reduce_error c)
      ]
      else write_commit repo c

  -- The stored commits of the entity, then the arriving one.
  unfoldable pub merge_history :
      Reducer P D
      → EntityRepo P D X
      → Commit P
      → List (OutputCommit P)
      → Action Db (Response (List Written))
  unfolding compute_entity write
  merge_history reducer repo c restored =
      let history = map (λ (o : OutputCommit P). o.commit) restored ++ c ∷ [] in
      do r ← lift (compute_entity history reducer); write repo c history r

  -- What follows the query for the stored commits, given its answer.
  unfoldable pub merge_queried :
      Reducer P D
      → EntityRepo P D X
      → Commit P
      → Errors × Option (List (OutputCommit P))
      → Action Db (Response (List Written))
  unfolding merge_history
  merge_queried reducer repo c (caught e, found) = raise type_error
  merge_queried reducer repo c (each es, found) =
      if any is_some es
      then pure (
          message_only "ERROR" "[FATAL_DATA_INTEGRITY_ERROR] fail to retrieve existing commit" none
            (some es))
      else elim found [
        | none ↦ raise type_error
        | some restored ↦ merge_history reducer repo c restored
      ]

  unfoldable pub merge_valid :
      Reducer P D → EntityRepo P D X → Commit P → Action Db (Response (List Written))
  unfolding query_commits_by_pattern get_pattern merge_queried
  merge_valid reducer repo c db =
      let pattern =
        commits_by_entity_name_entity_id (text_of c.entity_name) (text_of c.entity_id) in
      merge_queried reducer repo c (query_commits_by_pattern client codec db (get_pattern pattern))
        db

  -- The key of the commit is taken from the repository before the check that there is one.
  unfoldable pub merge_entity :
      Commit P → Option (Reducer P D) → Action Db (Response (List Written))
  unfolding lookup is_commit merge_valid
  merge_entity c reducer = elim (lookup (text_of c.entity_name) repos) [
    | none ↦ raise type_error
    | some repo ↦ elim reducer [
      | none ↦ raise invalid_arg
      | some r ↦ if is_commit c then merge_valid r repo c else raise invalid_arg
    ]
  ]

  -- The loop that adds the entities; the commits of the batch are not saved.
  unfoldable pub write_batch : EntityRepo P D X → List (Reduced P D) → Action Db (List Written)
  unfolding hmset_entity
  write_batch repo [] = pure []
  write_batch repo (r ∷ rs) = do
    status ← λ db. hmset_entity client codec repo db r.state r.commits
    rest ← write_batch repo rs
    pure (record { key = r.key; status = status } ∷ rest)

  unfoldable pub merge_batch :
      Reducer P D → EntityRepo P D X → Option String → Dict (Commit P) → Action Db Merged
  unfolding group_by_id reduce_batch write_batch
  merge_batch reducer repo name [] =
      pure (record { status = "OK"; message = "norecord exists"; written = []; errors = none })
  merge_batch reducer repo name (e ∷ es) = do
    r ← lift (reduce_batch reducer repo.entity_name (group_by_id name (values (e ∷ es))))
    written ← write_batch repo r.0
    pure (record {
      status = if eqb (length r.1) 0 then "OK" else "ERROR";
      message = codec.show (length written) +++ " record(s) merged";
      written = written;
      errors = if eqb (length r.1) 0 then none else some r.1;
    })

  unfoldable pub merge_entity_batch :
      Option String → Option (Dict (Commit P)) → Option (Reducer P D) → Action Db Merged
  unfolding lookup merge_batch
  merge_entity_batch name (some commits) (some reducer) =
      if truthy name
      then elim (lookup (text_of name) repos) [
        | none ↦ raise not_found
        | some repo ↦ merge_batch reducer repo name commits
      ]
      else raise invalid_arg
  merge_entity_batch name _ _ = raise invalid_arg
