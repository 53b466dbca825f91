-- ===== src/QueryHandler/Reconciling.antt =====
-- `reconcile` of packages/fabric-cqrs/src/queryHandler/createQueryHandler.ts: a dispatch to the slice
-- whose epics are in Store/Reconcile, after which the listener of the event hub merges.
use fabric_es.Prelude.{
  String, ◌≡◌, refl, ap, true, Option, none, some, List, [], Dict, lookup, truthy,
}
use fabric_es.Reducer.{Reducer}
use fabric_es.Redis.{Codec, Client}
use fabric_es.Redis.Repository.{EntityRepo}
use fabric_es.QueryDatabase.Entities.{Written}
use fabric_es.Store.{AnyAction, reconcile_handlers}
use fabric_es.Store.Dispatcher.{
  HandlerResponse, DispatcherOptions, Rejection, rejected, resolved, accept,
}
use fabric_es.Store.Outcomes.{IsSlice, reconcile_handlers-IsHandler}
use fabric_es.Store.Exchange.{
  Traffic, IsForeign, IsAnswer, plain_options, dispatch, dispatch_lem, outcome,
}
use fabric_es.Store.Reconcile.{ReconcileAction, answered, ReconcileCause, Surroundings, run}
use fabric_es.Store.Reconcile.Runs.{run-unavailable}
use fabric_es.QueryHandler.{Hub}

abbrev pub reconcile_options : DispatcherOptions (List Written) (List Written)
reconcile_options =
    plain_options "reconcile" "[Entity] Reconcile Success" "[Entity] Reconcile Error"

-- The listener of the dispatch, if the epics have answered. The two actions between the first one
-- and the answer are of types that the slice does not handle.
unfoldable pub await_answer :
    {P : Type 0}
    → Traffic (List Written) ReconcileCause
    → Option (ReconcileAction P)
    → Option (HandlerResponse (List Written) ReconcileCause)
await_answer t (some (answered a)) =
    dispatch reconcile_handlers reconcile_options "[Entity] Reconcile" t a
await_answer t _ = none

module _ {P D X F : Type 0} (client : Client X) (codec : Codec P) (repos : Dict (EntityRepo P D X))
    (reducers : Option (Dict (Reducer P D))) where
  open client use {Db}

  -- `isReconciled` is set whatever the response is.
  unfoldable pub await_reconcile :
      Surroundings P F
      → Traffic (List Written) ReconcileCause
      → Option String
      → Hub P
      → Db
      → Option (HandlerResponse (List Written) ReconcileCause) × Hub P × Db
  await_reconcile s t name hub db =
      let (end, db') =
        run client codec repos reducers (record s { tx_id = some t.token }) 3
          (ReconcileAction.reconcile name) db in
      elim (await_answer t end) [
        | none ↦ (none, hub, db')
        | some r ↦ (some r, record hub { is_reconciled = true }, db')
      ]

reconcile_options-IsSlice :
    IsSlice {R = List Written} {E = ReconcileCause} reconcile_handlers reconcile_options
unfolding lookup reconcile_handlers
reconcile_options-IsSlice = record {
  handled = reconcile_handlers-IsHandler _ _;
  success = refl;
  error = refl;
  apart = refl;
}

module _ {P D X F : Type 0} (client : Client X) (codec : Codec P) (repos : Dict (EntityRepo P D X))
    (reducers : Option (Dict (Reducer P D))) (s : Surroundings P F)
    (t : Traffic (List Written) ReconcileCause) (f : IsForeign reconcile_options t) where
  open client use {Db}

  reconcile_lem :
      (name : Option String) (a : AnyAction (List Written) ReconcileCause) (hub : Hub P)
      (db db' : Db)
      → IsAnswer reconcile_options t.token a
      → run client codec repos reducers
          (record s { tx_id = some t.token })
          3
          (ReconcileAction.reconcile name)
          db
        ≡ (some (answered a), db')
      → await_reconcile client codec repos reducers s t name hub db
        ≡ (some (outcome reconcile_options a), record hub { is_reconciled = true }, db')
  unfolding await_reconcile await_answer
  reconcile_lem name a hub db db' own h =
      rw
        (
          await_reconcile,
          h,
          await_answer,
          dispatch_lem reconcile_handlers reconcile_options "[Entity] Reconcile" t a
              reconcile_options-IsSlice f refl refl own,
        )
        (ap (λ x. (some (outcome reconcile_options a), record hub { is_reconciled = true }, x.1)) h)

  -- When the query of the ledger for the commits of a name has failed, and the dispatch of
  -- reconcile is among actions of other transactions only, reconcile resolves with status OK and an
  -- empty list, the handler counts as reconciled, and the database is as before.
  pub reconcile-unavailable :
      (name : String) (e : Rejection F) (hub : Hub P) (db : Db)
      → truthy (some name) ≡ true
      → s.ledger name ≡ some (rejected e)
      → await_reconcile client codec repos reducers s t (some name) hub db
        ≡ (some (resolved (some [])), record hub { is_reconciled = true }, db)
  unfolding accept
  reconcile-unavailable name e hub db y h =
      reconcile_lem (some name) _ hub db db (record { own = refl; awaited = λ q. cc })
        (run-unavailable client codec repos reducers (record s { tx_id = some t.token }) name e db y
          h)
