-- ===== src/QueryDatabase.antt =====
-- packages/fabric-cqrs/src/queryHandler/createQueryDatabase.ts: the operations on commits. Those on
-- entities are in a child.
pub mod Entities
pub mod Projection
pub mod Merging
pub mod Batches
pub mod EntityBatches
pub mod Groups
pub mod Deleting
use fabric_es.Prelude.{
  ℕ, String, Bool, true, false, not, ◌&&◌, ◌==◌, Option, none, some, List, [], ◌∷◌, ◌++◌, map,
  Result, ok, throw, Error, new_error, type_error, Dict, values, truthy, text_of, length, is_some,
  any, eqb, if◌then◌else◌,
}
use fabric_es.Prelude.Action.{Action, pure, raise, lift, ◌>>=◌, ◌>>◌, continue}
use fabric_es.Types.{Commit}
use fabric_es.Types.Guards.{is_commit}
use fabric_es.Redis.{Codec, Client}
use fabric_es.Redis.Keys.{
  Errors, caught, each, is_error, Pattern, commits_by_entity_name, commits_by_entity_name_entity_id,
  get_pattern, commit_key,
}
use fabric_es.Redis.Selectors.{OutputCommit, ◌+++◌}
use fabric_es.Redis.Repository.{delete_items_by_pattern, query_commits_by_pattern, hmset_commit}
use fabric_es.Redis.Notification.{Response, invalid_arg}

-- What a merge answers: the keys that were written and the status of each.
abbrev pub message_only :
    {A : Type 0} → String → String → Option A → Option (List (Option Error)) → Response A
message_only status message data' errors = record {
  status = status;
  message = some message;
  result = data';
  errors = errors;
}

abbrev key_text : Option String → String
key_text none = "null"
key_text (some k) = k

-- The keys that were written, and those for which Redis answered otherwise.
pub record Batch : Type 0 where
  pub status : String
  pub message : String
  pub keys : List (Option String)
  pub failures : List (Option String)

module _ {P X : Type 0} (client : Client X) (codec : Codec P) where
  open client use {Db}

  abbrev pub count_text : Option ℕ → String
  count_text none = "null"
  count_text (some n) = codec.show n

  unfoldable pub delete_items : Pattern → Action Db (Response ℕ)
  unfolding get_pattern delete_items_by_pattern is_error
  delete_items pattern db =
      let (errors, count, db') = delete_items_by_pattern client db (get_pattern pattern) in
      elim errors [
        | caught e ↦ (throw type_error, db')
        | each es ↦ (
          ok (
              if any is_some es
              then message_only "ERROR" (count_text count +++ " record(s) deleted") none (some es)
              else message_only "OK" (count_text count +++ " record(s) deleted") count none),
          db',
        )
      ]

  unfoldable pub query_commit : Pattern → Action Db (Response (List (OutputCommit P)))
  unfolding get_pattern query_commits_by_pattern is_error
  query_commit pattern db =
      let (errors, found) = query_commits_by_pattern client codec db (get_pattern pattern) in
      elim errors [
        | caught e ↦ (throw type_error, db)
        | each es ↦
            if any is_some es
            then (ok (message_only "ERROR" "fail to exec query" none (some es)), db)
            else elim found [
              | none ↦ (throw type_error, db)
              | some cs ↦ (
                ok (
                    message_only "OK" (codec.show (length cs) +++ " record(s) returned") (some cs)
                      none),
                db,
              )
            ]
      ]

  unfoldable pub delete_commit_by_entity_id : Option String → Option String → Action Db (Response ℕ)
  unfolding delete_items
  delete_commit_by_entity_id name id =
      if truthy name && truthy id
      then delete_items (commits_by_entity_name_entity_id (text_of name) (text_of id))
      else raise invalid_arg

  unfoldable pub delete_commit_by_entity_name : Option String → Action Db (Response ℕ)
  unfolding delete_items
  delete_commit_by_entity_name name =
      if truthy name
      then delete_items (commits_by_entity_name (text_of name))
      else raise invalid_arg

  unfoldable pub query_commit_by_entity_id :
      Option String → Option String → Action Db (Response (List (OutputCommit P)))
  unfolding query_commit
  query_commit_by_entity_id name id =
      if truthy name && truthy id
      then query_commit (commits_by_entity_name_entity_id (text_of name) (text_of id))
      else raise invalid_arg

  unfoldable pub query_commit_by_entity_name :
      Option String → Action Db (Response (List (OutputCommit P)))
  unfolding query_commit
  query_commit_by_entity_name name =
      if truthy name
      then query_commit (commits_by_entity_name (text_of name))
      else raise invalid_arg

  unfoldable pub merge_commit : Commit P → Action Db (Response (List (Option String)))
  unfolding is_commit commit_key hmset_commit
  merge_commit c =
      if is_commit c
      then (do
        status ← λ db. hmset_commit client codec db c
        pure (
            message_only status (key_text (commit_key c) +++ " merged successfully")
              (some (commit_key c ∷ [])) none))
      else raise invalid_arg

  -- The loop of `mergeCommitBatch`: the keys that were written, and those that were not.
  unfoldable pub merge_all :
      List (Commit P) → Action Db (List (Option String) × List (Option String))
  unfolding commit_key hmset_commit
  merge_all [] = pure ([], [])
  merge_all (c ∷ cs) = do
    status ← λ db. hmset_commit client codec db c
    rest ← merge_all cs
    pure (
        if status == "OK" then (commit_key c ∷ rest.0, rest.1) else (rest.0, commit_key c ∷ rest.1))

  -- The answer for commits that are given: an empty object is no error.
  pub merge_some : Dict (Commit P) → Action Db Batch
  unfolding merge_all
  merge_some [] =
      pure (record { status = "OK"; message = "norecord exists"; keys = []; failures = [] })
  merge_some (e ∷ es) = do
    r ← merge_all (values (e ∷ es))
    pure (record {
      status = if eqb (length r.1) 0 then "OK" else "ERROR";
      message = codec.show (length r.0) +++ " record(s) merged successfully";
      keys = r.0;
      failures = r.1;
    })

  unfoldable pub merge_commit_batch : Option String → Option (Dict (Commit P)) → Action Db Batch
  unfolding merge_some
  merge_commit_batch name none = raise invalid_arg
  merge_commit_batch name (some commits) =
      if truthy name then merge_some commits else raise invalid_arg
