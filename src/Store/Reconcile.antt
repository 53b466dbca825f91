-- ===== src/Store/Reconcile.antt =====
-- packages/fabric-cqrs/src/store/reconcile/epic: the three epics that rebuild the projections of an
-- entity name from the ledger. Each dispatches to another slice and answers with the next action.
pub mod Runs
pub mod Rebuilds
use fabric_es.Prelude.{
  ℕ, zero, suc, String, Bool, ◌≡◌, refl, ap, ◌==◌, Option, none, some, List, [], ◌∷◌, Error,
  type_error, Dict, truthy, text_of, if◌then◌else◌,
}
use fabric_es.Types.{Commit}
use fabric_es.Reducer.{Reducer}
use fabric_es.Redis.{Codec, Client}
use fabric_es.Redis.Repository.{EntityRepo}
use fabric_es.QueryDatabase.Entities.{Written}
use fabric_es.Store.{
  AnyAction, query_handlers, projection_handlers, get_success_action, get_error_action,
}
use fabric_es.Store.Dispatcher.{HandlerResponse, DispatcherOptions, Rejection}
use fabric_es.Store.Exchange.{Traffic, plain_options, dispatch}
use fabric_es.Store.Epics.{
  Cause, QueryResult, is_empty, merge_entity_batch_success, merge_entity_batch_error,
  merge_commit_batch_epic, merge_entity_batch_epic,
}

-- What an error action of this slice carries.
pub data ReconcileCause : Type 0 where
  text : String → ReconcileCause
  message_of : Error → ReconcileCause
  rejection : Option (Rejection Cause) → ReconcileCause

-- The actions of the slice: the three that an epic takes, and the answers.
pub data ReconcileAction (P : Type 0) : Type 0 where
  reconcile : Option String → ReconcileAction P
  merge_commits : Option String → Dict (Commit P) → ReconcileAction P
  merge_entities : Option String → Dict (Commit P) → ReconcileAction P
  answered : AnyAction (List Written) ReconcileCause → ReconcileAction P

module _ {P : Type 0} (tx_id : Option String) where
  abbrev pub reconcile_success : Option (List Written) → ReconcileAction P
  reconcile_success ws = answered (get_success_action "[Entity] Reconcile Success" tx_id ws)

  abbrev pub reconcile_error : ReconcileCause → ReconcileAction P
  reconcile_error e = answered (get_error_action "[Entity] Reconcile Error" tx_id (some e))

  -- What follows the answer of the ledger to the query for the commits of the name. A query that
  -- has failed has no data.
  unfoldable pub found_commits :
      {F : Type 0} → Option String → HandlerResponse (Dict (Commit P)) F → ReconcileAction P
  found_commits name r = elim r.data' [
    | none ↦ reconcile_success (some [])
    | some cs ↦ if is_empty cs then reconcile_success (some []) else merge_commits name cs
  ]

  -- What follows the merge of the commits: `data.length` throws if there is no data.
  unfoldable pub merged_commits :
      Option String → Dict (Commit P) → HandlerResponse (QueryResult P) Cause → ReconcileAction P
  merged_commits name cs r = elim r.data' [
    | none ↦ reconcile_error (message_of type_error)
    | some ks ↦ merge_entities name cs
  ]

  unfoldable pub merged_entities : HandlerResponse (List Written) Cause → ReconcileAction P
  merged_entities r =
      if r.status == "OK" then reconcile_success r.data' else reconcile_error (rejection r.error)

abbrev pub commit_batch_options : {P : Type 0} → DispatcherOptions (QueryResult P) (QueryResult P)
commit_batch_options =
    plain_options "merge_commit_batch" "[Query-Db] Merge Batch Success"
      "[Query-Db] Merge Batch Error"

abbrev pub entity_batch_options : DispatcherOptions (List Written) (List Written)
entity_batch_options =
    plain_options "merge_entity_batch" merge_entity_batch_success merge_entity_batch_error

-- The tokens and the other actions of the two dispatches; the answer of the ledger to the query for
-- the commits of an entity name, `none` while it is pending.
pub record Surroundings (P F : Type 0) : Type 0 where
  pub tx_id : Option String
  pub query_traffic : Traffic (QueryResult P) Cause
  pub projection_traffic : Traffic (List Written) Cause
  pub ledger : String → Option (HandlerResponse (Dict (Commit P)) F)

-- What a pending promise leaves of the rest.
abbrev pub then_maybe : {A B : Type 0} → (A → B) → Option A → Option B
then_maybe f none = none
then_maybe f (some a) = some (f a)

module _ {P D X F : Type 0} (client : Client X) (codec : Codec P) (repos : Dict (EntityRepo P D X))
    (reducers : Option (Dict (Reducer P D))) (s : Surroundings P F) where
  open client use {Db}

  unfoldable pub reconcile_commit : Option String → Db → Option (ReconcileAction P) × Db
  reconcile_commit name db =
      if truthy name
      then (then_maybe (found_commits s.tx_id name) (s.ledger (text_of name)), db)
      else (some (reconcile_error s.tx_id (text "invalid input argument")), db)

  unfoldable pub merge_commits_epic :
      Option String → Dict (Commit P) → Db → Option (ReconcileAction P) × Db
  merge_commits_epic name cs db =
      let t = s.query_traffic in
      let (answer, db') =
        merge_commit_batch_epic client codec repos (some t.token) name (some cs) db in
      (
        then_maybe (merged_commits s.tx_id name cs) (
            dispatch query_handlers commit_batch_options "[Query-Db] Merge records of entities" t
              answer),
        db',
      )

  unfoldable pub merge_entities_epic :
      Option String → Dict (Commit P) → Db → Option (ReconcileAction P) × Db
  merge_entities_epic name cs db =
      let t = s.projection_traffic in
      let (answer, db') =
        merge_entity_batch_epic client codec repos (some t.token) reducers name (some cs) db in
      (
        then_maybe (merged_entities s.tx_id) (
            dispatch projection_handlers entity_batch_options "[Project] Merge Entity Batch" t
              answer),
        db',
      )

  -- The epic that takes the action, and what it answers with; an answer is taken by none.
  unfoldable pub step : ReconcileAction P → Db → Option (ReconcileAction P) × Db
  step (reconcile name) db = reconcile_commit name db
  step (merge_commits name cs) db = merge_commits_epic name cs db
  step (merge_entities name cs) db = merge_entities_epic name cs db
  step (answered a) db = (some (answered a), db)

  abbrev pub proceed :
      (ReconcileAction P → Db → Option (ReconcileAction P) × Db)
      → Option (ReconcileAction P) × Db
      → Option (ReconcileAction P) × Db
  proceed f (none, db) = (none, db)
  proceed f (some a, db) = f a db

  -- Actions are taken one after the other, at most this often.
  unfoldable pub run : ℕ → ReconcileAction P → Db → Option (ReconcileAction P) × Db
  run zero a db = (some a, db)
  run (suc n) a db = proceed (λ b db'. run n b db') (step a db)
