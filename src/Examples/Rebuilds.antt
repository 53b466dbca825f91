-- ===== src/Examples/Rebuilds.antt =====
-- A reconciliation over a client in memory, and its parts.
use fabric_es.Prelude.{
  String, ◌≡◌, refl, true, false, Option, none, some, List, [], ◌∷◌, ok, Dict, lookup, assign,
}
use fabric_es.Types.{Commit}
use fabric_es.Reducer.{Entity, get_reducer, compute_entity}
use fabric_es.Redis.Keys.{commit_key, entity_key}
use fabric_es.QueryDatabase.Entities.{Written, Merged, group_by_id, merge_entity_batch}
use fabric_es.QueryDatabase.Batches.{AreStored, Avoids}
use fabric_es.QueryDatabase.EntityBatches.{
  Planned, AvoidsAll, AreProjected, merge_entity_batch-AreProjected, AreReducible,
}
use fabric_es.Store.{initial_state}
use fabric_es.Store.Dispatcher.{HandlerResponse, guard_failed, resolved, rejected, settle}
use fabric_es.Store.Exchange.{Traffic, IsForeign}
use fabric_es.Store.Reconcile.{
  ReconcileAction, reconcile, reconcile_success, commit_batch_options, entity_batch_options,
  Surroundings, run, ReconcileCause,
}
use fabric_es.Store.Reconcile.Runs.{is_answered, run-ends}
use fabric_es.Store.Reconcile.Rebuilds.{run-rebuilds}
use fabric_es.QueryHandler.Reconciling.{await_reconcile, reconcile_options, reconcile-unavailable}
use fabric_es.Examples.Memory.{Server, memory, memory_laws}
use fabric_es.Examples.Arrivals.{hub}
use fabric_es.Examples.Projections.{
  codec, created, changed, docs, reducer, empty, batch, plan, keys_differ,
}

abbrev rebuilt : Entity String
rebuilt = record {
  id = some "i1";
  domain = "b";
  creator = some "admin";
  created = some 3;
  ts = some 7;
  organization = some (some "Org1MSP" ∷ some "Org2MSP" ∷ []);
  private_data = none;
}

abbrev entities : List (Planned String String)
entities =
    record { id = "i1"; log = created ∷ changed ∷ []; state = rebuilt; key = "e:doc:i1" } ∷ []

entities-AreReducible : AreReducible memory_laws codec docs reducer entities
unfolding compute_entity get_reducer lookup assign entity_key
entities-AreReducible = (refl, refl, tt)

merge_entity_batch-AreProjected_example :
    (m : Merged) × (db' : Server) × (merge_entity_batch memory codec
        (("doc", docs) ∷ [])
        (some "doc")
        (some batch)
        (some reducer)
        empty
      ≡ (ok m, db'))
    × (m.status ≡ "OK")
    × (m.written ≡ record { key = some "e:doc:i1"; status = "OK" } ∷ [])
    × (m.errors ≡ none)
    × AreProjected memory_laws codec docs reducer db' entities
    × ((j : String)
        → AvoidsAll memory_laws codec docs reducer j entities
        → memory_laws.value db' j ≡ memory_laws.value empty j)
unfolding entity_key
merge_entity_batch-AreProjected_example =
    merge_entity_batch-AreProjected memory_laws codec docs reducer (("doc", docs) ∷ []) "doc" batch
      entities empty tt refl (unfold lookup in refl) (unfold group_by_id lookup assign in refl)
      entities-AreReducible (tt, tt) (unfold lookup in (refl, tt))

abbrev around : Option (HandlerResponse (Dict (Commit String)) String) → Surroundings String String
around answer = record {
  tx_id = some "t1";
  query_traffic = record { token = "t2"; state = initial_state; before = []; after = [] };
  projection_traffic = record { token = "t3"; state = initial_state; before = []; after = [] };
  ledger = λ name. answer;
}

queries-IsForeign :
    IsForeign
      (commit_batch_options {P = String})
      (around (some (resolved (some batch)))).query_traffic
unfolding settle
queries-IsForeign = record { before = refl; state = refl }

projections-IsForeign :
    IsForeign entity_batch_options (around (some (resolved (some batch)))).projection_traffic
unfolding settle
projections-IsForeign = record { before = refl; state = refl }

run-ends_example :
    (b : ReconcileAction String) × (db' : Server) × (run memory codec
        (("doc", docs) ∷ [])
        (some (("doc", reducer) ∷ []))
        (around (some (resolved (some batch))))
        3
        (reconcile (some "doc"))
        empty
      ≡ (some b, db'))
    × (is_answered b ≡ true)
run-ends_example =
    run-ends memory codec (("doc", docs) ∷ []) (some (("doc", reducer) ∷ []))
      (around (some (resolved (some batch)))) queries-IsForeign projections-IsForeign (λ name. refl)
      (some "doc") empty

run-rebuilds_example :
    (db' : Server) × (run memory codec
        (("doc", docs) ∷ [])
        (some (("doc", reducer) ∷ []))
        (around (some (resolved (some batch))))
        3
        (reconcile (some "doc"))
        empty
      ≡ (
        some (
            reconcile_success
              (some "t1")
              (some (record { key = some "e:doc:i1"; status = "OK" } ∷ []))),
        db',
      ))
    × AreStored memory_laws codec db' plan
    × AreProjected memory_laws codec docs reducer db' entities
    × ((j : String)
        → Avoids memory_laws codec j plan
        → AvoidsAll memory_laws codec docs reducer j entities
        → memory_laws.value db' j ≡ memory_laws.value empty j)
unfolding entity_key commit_key
run-rebuilds_example =
    run-rebuilds memory_laws codec docs reducer (("doc", docs) ∷ []) (("doc", reducer) ∷ [])
      (around (some (resolved (some batch)))) queries-IsForeign projections-IsForeign "doc"
      (unfold lookup in refl) (unfold lookup in refl) refl batch plan entities empty tt refl refl
      refl ((refl, refl, refl), (keys_differ _ _ refl, tt), ((refl, refl, refl), tt, tt))
      (unfold group_by_id lookup assign in refl) entities-AreReducible (tt, tt)
      (unfold lookup in (refl, (refl, tt))) (unfold lookup in (refl, tt))

abbrev alone : Traffic (List Written) ReconcileCause
alone = record { token = "t1"; state = initial_state; before = []; after = [] }

alone-IsForeign : IsForeign reconcile_options alone
unfolding settle
alone-IsForeign = record { before = refl; state = refl }

reconcile-unavailable_example :
    await_reconcile memory codec
      (("doc", docs) ∷ [])
      (some (("doc", reducer) ∷ []))
      (around (some (rejected (guard_failed "reconcile"))))
      alone
      (some "doc")
      (record hub { is_reconciled = false })
      empty
    ≡ (some (resolved (some [])), hub, empty)
reconcile-unavailable_example =
    reconcile-unavailable memory codec (("doc", docs) ∷ []) (some (("doc", reducer) ∷ []))
      (around (some (rejected (guard_failed "reconcile")))) alone alone-IsForeign "doc"
      (guard_failed "reconcile") (record hub { is_reconciled = false }) empty refl refl
