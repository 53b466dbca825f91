-- ===== src/Store/Reconcile/Runs.antt =====
-- How the three epics of packages/fabric-cqrs/src/store/reconcile/epic follow one another.
use fabric_es.Prelude.{
  ℕ, zero, suc, String, ◌≡◌, refl, Bool, true, false, ◌==◌, Option, none, some, List, [], Result,
  ok, throw, Dict, lookup, truthy, text_of, Bool-cases, Option-cases, is_some, some_of_is_some, inl,
  inr,
}
use fabric_es.Types.{Commit}
use fabric_es.Reducer.{Reducer}
use fabric_es.Redis.{Codec, Client}
use fabric_es.Redis.Repository.{EntityRepo}
use fabric_es.QueryDatabase.{Batch, merge_commit_batch}
use fabric_es.QueryDatabase.Entities.{Written, Merged, merge_entity_batch}
use fabric_es.Store.{query_handlers, projection_handlers}
use fabric_es.Store.Dispatcher.{HandlerResponse, Rejection, rejected}
use fabric_es.Store.Outcomes.{IsSlice, query_handlers-IsHandler, projection_handlers-IsHandler}
use fabric_es.Store.Exchange.{IsForeign, IsAnswer, dispatch_lem, outcome}
use fabric_es.Store.Epics.{
  Cause, QueryResult, is_empty, respond_batch, respond_merged, merge_commit_batch_epic,
  merge_entity_batch_epic,
}
use fabric_es.Store.Reconcile.{
  ReconcileAction, reconcile, merge_commits, merge_entities, answered, reconcile_error, text,
  reconcile_success, found_commits, merged_commits, merged_entities, commit_batch_options,
  entity_batch_options, Surroundings, reconcile_commit, merge_commits_epic, merge_entities_epic,
  step, run,
}

abbrev pub is_answered : {P : Type 0} → ReconcileAction P → Bool
is_answered (answered a) = true
is_answered _ = false

pub commit_batch-IsSlice :
    {P : Type 0} → IsSlice {E = Cause} query_handlers (commit_batch_options {P = P})
unfolding lookup query_handlers
commit_batch-IsSlice = record {
  handled = query_handlers-IsHandler _ _;
  success = refl;
  error = refl;
  apart = refl;
}

pub entity_batch-IsSlice :
    IsSlice {R = List Written} {E = Cause} projection_handlers entity_batch_options
unfolding lookup projection_handlers
entity_batch-IsSlice = record {
  handled = projection_handlers-IsHandler _ _;
  success = refl;
  error = refl;
  apart = refl;
}

pub respond_batch-IsAnswer :
    {P : Type 0} (token : String) (r : Result Batch)
    → IsAnswer (commit_batch_options {P = P}) token (respond_batch (some token) r)
unfolding respond_batch
respond_batch-IsAnswer token (throw e) = record { own = refl; awaited = λ h. refl }
respond_batch-IsAnswer token (ok b) = elim (Bool-cases (b.status == "OK")) [
  | inl y ↦ rw y (record { own = refl; awaited = λ h. cc })
  | inr n ↦ rw n (record { own = refl; awaited = λ h. refl })
]

pub respond_merged-IsAnswer :
    (token : String) (r : Result Merged)
    → IsAnswer entity_batch_options token (respond_merged (some token) r)
unfolding respond_merged
respond_merged-IsAnswer token (throw e) = record { own = refl; awaited = λ h. refl }
respond_merged-IsAnswer token (ok b) = elim (Bool-cases (b.status == "OK")) [
  | inl y ↦ rw y (record { own = refl; awaited = λ h. cc })
  | inr n ↦ rw n (record { own = refl; awaited = λ h. refl })
]

module _ {P D X F : Type 0} (client : Client X) (codec : Codec P) (repos : Dict (EntityRepo P D X))
    (reducers : Option (Dict (Reducer P D))) (s : Surroundings P F)
    (f : IsForeign (commit_batch_options {P = P}) s.query_traffic)
    (g : IsForeign entity_batch_options s.projection_traffic) where
  open client use {Db}

  merge_entity_batch_epic-IsAnswer :
      (token : String) (rs : Option (Dict (Reducer P D))) (name : Option String)
      (cs : Dict (Commit P)) (db : Db)
      → IsAnswer entity_batch_options token
          (merge_entity_batch_epic client codec repos (some token) rs name (some cs) db).0
  unfolding merge_entity_batch_epic
  merge_entity_batch_epic-IsAnswer token none name cs db = record {
    own = refl;
    awaited = λ h. refl;
  }
  merge_entity_batch_epic-IsAnswer token (some rs) name cs db = elim (Bool-cases (truthy name)) [
    | inr n ↦ rw n (record { own = refl; awaited = λ h. refl })
    | inl y ↦ elim (Bool-cases (is_empty cs)) [
      | inl empty ↦ rw (y, empty) (record { own = refl; awaited = λ h. cc })
      | inr full ↦ elim (Option-cases (lookup (text_of name) rs)) [
        | inl missing ↦
            rw (y, full)
              (rw (merge_entity_batch_epic, missing) (record { own = refl; awaited = λ h. refl }))
        | inr (reducer, found) ↦
            rw (y, full)
              (rw (merge_entity_batch_epic, found)
                (respond_merged-IsAnswer token
                  (merge_entity_batch client codec repos name (some cs) (some reducer) db).0))
      ]
    ]
  ]

  merged_entities-is_answered :
      (r : HandlerResponse (List Written) Cause)
      → is_answered {P = P} (merged_entities s.tx_id r) ≡ true
  unfolding merged_entities
  merged_entities-is_answered r = elim (Bool-cases (r.status == "OK")) [
    | inl y ↦ rw y refl
    | inr n ↦ rw n refl
  ]

  -- The actions from this one on end in an answer.
  abbrev Ends : ℕ → ReconcileAction P → Db → Type 0
  Ends n a db =
      (b : ReconcileAction P) × (db' : Db) × (run client codec repos reducers s n a db
        ≡ (some b, db'))
      × (is_answered b ≡ true)

  run-is_answered : (n : ℕ) (a : ReconcileAction P) (db : Db) → is_answered a ≡ true → Ends n a db
  unfolding run step
  run-is_answered zero a db h = (a, db, refl, h)
  run-is_answered (suc n) (answered x) db h = run-is_answered n (answered x) db refl
  run-is_answered (suc n) (reconcile name) db h = cc
  run-is_answered (suc n) (merge_commits name cs) db h = cc
  run-is_answered (suc n) (merge_entities name cs) db h = cc

  -- The third epic answers.
  run-merge_entities :
      (name : Option String) (cs : Dict (Commit P)) (db : Db) → Ends 1 (merge_entities name cs) db
  unfolding run step merge_entities_epic
  run-merge_entities name cs db =
      let t = s.projection_traffic in
      let r =
        merge_entity_batch_epic client codec repos (some t.token) reducers name (some cs) db in
      let o = outcome entity_batch_options r.0 in
      (
        merged_entities s.tx_id o,
        r.1,
        rw
            (
              run,
              merge_entities_epic,
              dispatch_lem projection_handlers entity_batch_options "[Project] Merge Entity Batch" t
                  r.0 entity_batch-IsSlice g refl refl
                  (merge_entity_batch_epic-IsAnswer t.token reducers name cs db),
            )
            refl,
        merged_entities-is_answered o,
      )

  -- The second epic answers, or passes the commits on to the third.
  run-merged_commits :
      (name : Option String) (cs : Dict (Commit P)) (o : HandlerResponse (QueryResult P) Cause)
      (db : Db)
      → Ends 1 (merged_commits s.tx_id name cs o) db
  unfolding merged_commits
  run-merged_commits name cs o db = elim (Option-cases o.data') [
    | inl missing ↦ rw (merged_commits, missing) (run-is_answered 1 _ db refl)
    | inr (ks, found) ↦ rw (merged_commits, found) (run-merge_entities name cs db)
  ]

  run-merge_commits :
      (name : Option String) (cs : Dict (Commit P)) (db : Db) → Ends 2 (merge_commits name cs) db
  unfolding run step merge_commits_epic merge_commit_batch_epic
  run-merge_commits name cs db =
      let t = s.query_traffic in
      let r = merge_commit_batch client codec name (some cs) db in
      let answer = respond_batch (some t.token) r.0 in
      let resolved_as =
        dispatch_lem query_handlers commit_batch_options "[Query-Db] Merge records of entities" t
          answer commit_batch-IsSlice f refl refl (respond_batch-IsAnswer t.token r.0) in
      rw (run, merge_commits_epic, resolved_as)
        (run-merged_commits name cs (outcome commit_batch_options answer) r.1)

  run-found_commits :
      (name : Option String) (r : HandlerResponse (Dict (Commit P)) F) (db : Db)
      → Ends 2 (found_commits s.tx_id name r) db
  unfolding found_commits
  run-found_commits name r db = elim (Option-cases r.data') [
    | inl missing ↦ rw (found_commits, missing) (run-is_answered 2 _ db refl)
    | inr (cs, found) ↦ elim (Bool-cases (is_empty cs)) [
      | inl empty ↦ rw (found_commits, found) (rw empty (run-is_answered 2 _ db refl))
      | inr full ↦ rw (found_commits, found) (rw full (run-merge_commits name cs db))
    ]
  ]

  -- If the ledger answers every query and the two dispatches are among actions of other
  -- transactions only, a reconciliation of any entity name, in any database, comes to an answering
  -- action after at most three epics.
  pub run-ends :
      ((name : String) → is_some (s.ledger name) ≡ true)
      → (name : Option String) (db : Db)
      → (b : ReconcileAction P) × (db' : Db) × (run client codec repos reducers s 3
            (reconcile name)
            db
          ≡ (some b, db'))
        × (is_answered b ≡ true)
  unfolding run step reconcile_commit
  run-ends settles name db = elim (Bool-cases (truthy name)) [
    | inr n ↦
        rw n (run-is_answered 2 (reconcile_error s.tx_id (text "invalid input argument")) db refl)
    | inl y ↦
        let (r, e) = some_of_is_some (s.ledger (text_of name)) (settles (text_of name)) in
        rw (run, y, e) (run-found_commits name r db)
  ]

module _ {P D X F : Type 0} (client : Client X) (codec : Codec P) (repos : Dict (EntityRepo P D X))
    (reducers : Option (Dict (Reducer P D))) (s : Surroundings P F) where
  open client use {Db}

  -- A query of the ledger that fails counts as one that finds nothing.
  pub run-unavailable :
      (name : String) (e : Rejection F) (db : Db)
      → truthy (some name) ≡ true
      → s.ledger name ≡ some (rejected e)
      → run client codec repos reducers s 3 (reconcile (some name)) db
        ≡ (some (reconcile_success s.tx_id (some [])), db)
  unfolding run step reconcile_commit found_commits
  run-unavailable name e db y h = rw (y, h) refl
