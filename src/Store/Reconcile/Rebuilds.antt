-- ===== src/Store/Reconcile/Rebuilds.antt =====
-- What a reconciliation leaves in Redis: the three epics of
-- packages/fabric-cqrs/src/store/reconcile/epic over a client with the documented behaviour.
use fabric_es.Prelude.{
  String, ◌≡◌, refl, ap, sym, ◌∙◌, true, false, Option, none, some, List, [], ◌∷◌, ok, Dict, values,
  lookup, truthy,
}
use fabric_es.Types.{Commit}
use fabric_es.Reducer.{Reducer}
use fabric_es.Redis.{Codec, Client}
use fabric_es.Redis.Keys.{commit_key, entity_key}
use fabric_es.Redis.Held.{IsClient, takes_entity}
use fabric_es.Redis.Laws.{keys_apart}
use fabric_es.Redis.Repository.{EntityRepo}
use fabric_es.Redis.Notification.{Fields}
use fabric_es.QueryDatabase.Batches.{
  AreStorable, AreStored, Avoids, TakeCommits, merge_commit_batch-AreStored,
}
use fabric_es.QueryDatabase.{Batch, merge_commit_batch}
use fabric_es.QueryDatabase.Entities.{Merged, group_by_id, merge_entity_batch}
use fabric_es.QueryDatabase.EntityBatches.{
  Planned, groups, AreReducible, AvoidsAll, AreApart, AreProjected, TakeEntities, listed,
  merge_entity_batch-AreProjected,
}
use fabric_es.Store.{query_handlers, projection_handlers}
use fabric_es.Store.Dispatcher.{resolved, accept}
use fabric_es.Store.Exchange.{IsForeign, dispatch_lem}
use fabric_es.Store.Epics.{
  is_empty, respond_batch, respond_merged, merge_commit_batch_epic, merge_entity_batch_epic,
}
use fabric_es.Store.Reconcile.{
  reconcile, merge_entities, reconcile_success, found_commits, merged_commits, merged_entities,
  commit_batch_options, entity_batch_options, Surroundings, reconcile_commit, merge_commits_epic,
  merge_entities_epic, step, run,
}
use fabric_es.Store.Reconcile.Runs.{
  commit_batch-IsSlice, entity_batch-IsSlice, respond_batch-IsAnswer, respond_merged-IsAnswer,
}

module _ {P D X F : Type 0} {client : Client X} (laws : IsClient client) (codec : Codec P)
    (repo : EntityRepo P D X) (reducer : Reducer P D) (repos : Dict (EntityRepo P D X))
    (reducers : Dict (Reducer P D)) (s : Surroundings P F)
    (f : IsForeign (commit_batch_options {P = P}) s.query_traffic)
    (g : IsForeign entity_batch_options s.projection_traffic) (name : String)
    (known : lookup name repos ≡ some repo) (reducible : lookup name reducers ≡ some reducer)
    (named : truthy (some name) ≡ true) where
  open client use {Db}

  no_fields : Fields
  no_fields = record { creator = none; entity_name = none; id = none; commit_id = none }

  -- The keys of commits and those of entities differ.
  commit-AvoidsAll :
      (c : Commit P) (k : String) (plan : List (Planned P D))
      → commit_key c ≡ some k
      → AreReducible laws codec repo reducer plan
      → AvoidsAll laws codec repo reducer k plan
  commit-AvoidsAll c k [] h r = tt
  commit-AvoidsAll c k (p ∷ ps) h (r, e, rs) = (
    (keys_apart repo.entity_name p.state.id c no_fields p.key k e h).0,
    commit-AvoidsAll c k ps h rs,
  )

  AreStored-frame :
      (stored : Dict (Commit P)) (plan : List (Planned P D)) (db db' : Db)
      → AreStorable laws codec stored
      → AreReducible laws codec repo reducer plan
      → ((j : String)
          → AvoidsAll laws codec repo reducer j plan
          → laws.value db' j ≡ laws.value db j)
      → AreStored laws codec db stored
      → AreStored laws codec db' stored
  AreStored-frame [] plan db db' a r frame h = tt
  AreStored-frame ((k, c) ∷ cs) plan db db' (a, v, as') r frame (h, hs) =
      (frame k (commit-AvoidsAll c k plan a.0 r) ∙ h, AreStored-frame cs plan db db' as' r frame hs)

  -- No commit of the batch goes to the key of an entity.
  entity-Avoids :
      (k : String) (id : Option String) (stored : Dict (Commit P))
      → entity_key repo.entity_name id ≡ some k
      → AreStorable laws codec stored
      → Avoids laws codec k stored
  entity-Avoids k id [] e a = tt
  entity-Avoids k id ((j, c) ∷ cs) e (a, v, as') = (
    λ h. (keys_apart repo.entity_name id c no_fields k j e a.0).0 (sym h),
    entity-Avoids k id cs e as',
  )

  TakeEntities-after :
      (stored : Dict (Commit P)) (plan : List (Planned P D)) (db db' : Db)
      → AreStorable laws codec stored
      → AreReducible laws codec repo reducer plan
      → ((j : String) → Avoids laws codec j stored → laws.value db' j ≡ laws.value db j)
      → TakeEntities laws codec repo reducer db plan
      → TakeEntities laws codec repo reducer db' plan
  TakeEntities-after stored [] db db' a r frame h = tt
  TakeEntities-after stored (p ∷ ps) db db' a (r, e, rs) frame (t, ts) = (
    ap takes_entity (frame p.key (entity-Avoids p.key p.state.id stored e a)) ∙ t,
    TakeEntities-after stored ps db db' a rs frame ts,
  )

  merge_commits_epic-merged :
      (commits : Dict (Commit P)) (b : Batch) (db db' : Db)
      → merge_commit_batch client codec (some name) (some commits) db ≡ (ok b, db')
      → b.status ≡ "OK"
      → merge_commits_epic client codec repos (some reducers) s (some name) commits db
        ≡ (some (merge_entities (some name) commits), db')
  unfolding merge_commits_epic merge_commit_batch_epic respond_batch merged_commits accept
  merge_commits_epic-merged commits b db db' h status =
      let t = s.query_traffic in
      rw
        (
          merge_commits_epic,
          h,
          dispatch_lem query_handlers commit_batch_options "[Query-Db] Merge records of entities" t
              (respond_batch (some t.token) (ok b)) commit_batch-IsSlice f refl refl
              (respond_batch-IsAnswer t.token (ok b)),
        )
        (rw (respond_batch, status) refl)

  merge_entities_epic-merged :
      (commits : Dict (Commit P)) (m : Merged) (db db' : Db)
      → is_empty commits ≡ false
      → merge_entity_batch client codec repos (some name) (some commits) (some reducer) db
        ≡ (ok m, db')
      → m.status ≡ "OK"
      → merge_entities_epic client codec repos (some reducers) s (some name) commits db
        ≡ (some (reconcile_success s.tx_id (some m.written)), db')
  unfolding merge_entities_epic merge_entity_batch_epic respond_merged merged_entities accept
  merge_entities_epic-merged commits m db db' full h status =
      let t = s.projection_traffic in
      rw (merge_entities_epic, named, full)
        (rw (merge_entity_batch_epic, reducible)
          (rw
            (
              h,
              dispatch_lem projection_handlers entity_batch_options "[Project] Merge Entity Batch" t
                  (respond_merged (some t.token) (ok m)) entity_batch-IsSlice g refl refl
                  (respond_merged-IsAnswer t.token (ok m)),
            )
            (rw (respond_merged, status) refl)))

  -- Let a name be given that has a repository and a reducer, and the two dispatches be among
  -- actions of other transactions only. While the server is up, let the ledger answer with commits,
  -- at least one; let one plan list them with their keys, all with events and a version, no two
  -- with one key, and another plan list the groups of their ids, each of which reduces to an entity
  -- with a key, no two with one key; let each of these keys hold nothing or a hash of its kind.
  -- Then the reconciliation succeeds with a key for each entity and the status OK; each key holds
  -- the texts of its commit, or of its entity with its history, and no other key has changed.
  pub run-rebuilds :
      (commits stored : Dict (Commit P)) (plan : List (Planned P D)) (db : Db)
      → laws.Up db
      → s.ledger name ≡ some (resolved (some commits))
      → is_empty commits ≡ false
      → values stored ≡ values commits
      → AreStorable laws codec stored
      → group_by_id (some name) (values commits) ≡ groups laws codec repo reducer plan
      → AreReducible laws codec repo reducer plan
      → AreApart laws codec repo reducer plan
      → TakeCommits laws codec db stored
      → TakeEntities laws codec repo reducer db plan
      → (db' : Db) × (run client codec repos (some reducers) s 3 (reconcile (some name)) db
          ≡ (some (reconcile_success s.tx_id (some (listed laws codec repo reducer plan))), db'))
        × AreStored laws codec db' stored
        × AreProjected laws codec repo reducer db' plan
        × ((j : String)
            → Avoids laws codec j stored
            → AvoidsAll laws codec repo reducer j plan
            → laws.value db' j ≡ laws.value db j)
  unfolding run step reconcile_commit found_commits
  run-rebuilds commits stored plan db u found full e st grouped r apart tc te =
      let (b, db1, run1, u1, status, bkeys, fails, held, frame1) =
        merge_commit_batch-AreStored laws codec name commits stored db u named e st tc in
      let (m, db2, run2, done, written, errs, projected, frame2) =
        merge_entity_batch-AreProjected laws codec repo reducer repos name commits plan db1 u1 named
          known grouped r apart (TakeEntities-after stored plan db db1 st r frame1 te) in
      (
        db2,
        rw (run, named, found)
            (rw full (
              rw (merge_commits_epic-merged commits b db db1 run1 status) (
                rw (merge_entities_epic-merged commits m db1 db2 full run2 done)
                  (rw written refl)))),
        AreStored-frame stored plan db1 db2 st r frame2 held,
        projected,
        λ j n k. frame2 j k ∙ frame1 j n,
      )
