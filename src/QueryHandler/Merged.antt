-- ===== src/QueryHandler/Merged.antt =====
-- The listener of packages/fabric-cqrs/src/queryHandler/createQueryHandler.ts from the event to the keys
-- of Redis and the message that is published.
use fabric_es.Prelude.{
  String, ◌≡◌, refl, ◌∙◌, true, false, Option, none, some, List, [], ◌∷◌, ◌++◌, map, Result, ok,
  Dict, lookup, text_of, is_some, arith, Option-cases, inl, inr,
}
use fabric_es.Types.{Event, Commit}
use fabric_es.Reducer.{Entity, Reducer, compute_entity}
use fabric_es.Redis.{Codec, Client}
use fabric_es.Redis.Keys.{commit_key, entity_key}
use fabric_es.Redis.Held.{IsClient, takes_commit, takes_entity}
use fabric_es.Redis.Laws.{commit_as_read}
use fabric_es.Redis.Repository.{EntityRepo}
use fabric_es.QueryDatabase.Entities.{Written, has_id, reduce_error, merge_entity}
use fabric_es.QueryDatabase.Projection.{IsLog}
use fabric_es.QueryDatabase.Merging.{IsMerged, merge_entity-IsMerged, merge_entity-irreducible}
use fabric_es.Store.{projection_handlers}
use fabric_es.Store.Dispatcher.{HandlerResponse, rejected, action_failed}
use fabric_es.Store.Exchange.{Traffic, IsForeign, IsAnswer, dispatch_lem, outcome}
use fabric_es.Store.Epics.{Cause, errors, merge_entity_epic, merge_entity_error}
use fabric_es.QueryHandler.{
  ContractEvent, Hub, Message, commit_arrived, system_event, merge_options, publish_result,
  merge_one_entity, merge_arrived, on_event,
}
use fabric_es.QueryHandler.Arrivals.{
  IsAccepted, on_event-accepted, merge_options-IsSlice, merge_one_entity_lem,
  merge_arrived-IsMerged, respond-IsAnswer,
}

module _ {P D X : Type 0} (client : Client X) (codec : Codec P) (repos : Dict (EntityRepo P D X))
    (reducers : Dict (Reducer P D)) (t : Traffic (List Written) Cause)
    (f : IsForeign merge_options t) (repo : EntityRepo P D X) (laws : IsClient client) (hub : Hub P)
    (publish : Message P → Result (Unit {0})) (listening : hub.pub_sub ≡ some publish)
    (event : ContractEvent) (reducer : Reducer P D) (c : Commit P)
    (accepted : IsAccepted hub event c)
    (reducible : lookup (text_of c.entity_name) reducers ≡ some reducer) where
  open client use {Db}

  -- Let an event of the event hub be accepted, its entity name have a reducer, the dispatch of the
  -- merge be among actions of other transactions only, and somebody listen. While the server is up,
  -- let the commit have events and the parts of a key, its entity a repository and a log, let the
  -- log, as it is read back, followed by the commit reduce to an entity with a key, and let the
  -- keys of the entity and of the commit hold nothing or a hash of their kind. Then the listener
  -- ends without an error, publishes the commit with the types of its events and its entity's key,
  -- and nothing else; Redis is as mergeEntity leaves it: the entity's key holds the texts of that
  -- entity with that history, the commit's key those of the commit, the key of the notification
  -- holds the flag of an unread one, and no other key has changed.
  pub on_event-IsMerged :
      (db : Db) (log : List (Commit P)) (n : Entity D) (es : List (Event P)) (e k : String)
      → laws.Up db
      → lookup (text_of c.entity_name) repos ≡ some repo
      → c.events ≡ some es
      → commit_key c ≡ some k
      → IsLog laws codec db c log
      → compute_entity (map (commit_as_read codec) log ++ c ∷ []) reducer
        ≡ ok (record { state = some n; reduced = true })
      → entity_key repo.entity_name n.id ≡ some e
      → takes_entity (laws.value db e) ≡ true
      → takes_commit (laws.value db k) ≡ true
      → (db' : Db) × (on_event client codec repos hub (some reducers) t event db ≡ (
        record {
          ends = some (ok tt);
          published =
              commit_arrived c (map (λ v. v.type) es) (entity_key repo.entity_name c.id) ∷ [];
        },
        db',
      ))
        × IsMerged laws codec repo db db' c (map (commit_as_read codec) log ++ c ∷ []) n e k
  on_event-IsMerged db log n es e k u known h hk l r he te tk =
      let (db', run, merged) =
        merge_entity-IsMerged laws codec repo repos reducer db c log n e k u known accepted.valid
          (rw h refl) hk l r he te tk in
      (
        db',
        on_event-accepted client codec repos hub (some reducers) t event c db accepted
            ∙ merge_arrived-IsMerged client codec repos reducers t f repo laws hub publish listening
                reducer c db db' es reducible h run,
        merged,
      )

  -- Under the conditions of an accepted event among actions of other transactions, with somebody
  -- listening: if the log, as it is read back, followed by the commit is reduced to nothing, or to
  -- an entity without an id, the listener publishes the failed response as a system event and
  -- nothing else, ends as that publication does, and leaves the database as it is.
  pub on_event-irreducible :
      (db : Db) (log : List (Commit P)) (s : Option (Entity D))
      → laws.Up db
      → lookup (text_of c.entity_name) repos ≡ some repo
      → IsLog laws codec db c log
      → compute_entity (map (commit_as_read codec) log ++ c ∷ []) reducer
        ≡ ok (record { state = s; reduced = true })
      → has_id s ≡ false
      → on_event client codec repos hub (some reducers) t event db ≡ (
        let failure = system_event (
              rejected
                (action_failed merge_entity_error (some (errors (reduce_error c).errors)))) in
            record { ends = some (publish failure); published = failure ∷ [] },
        db,
      )
  unfolding merge_arrived publish_result
  on_event-irreducible db log s u known l r h =
      let run =
        merge_entity-irreducible laws codec repo repos reducer db c log s u known accepted.valid l r
          h in
      on_event-accepted client codec repos hub (some reducers) t event c db accepted
      ∙ rw
          (
            merge_arrived,
            merge_one_entity_lem client codec repos reducers t f c reducer db reducible,
          )
          (rw run (rw (publish_result, listening) refl))

module _ {P D X : Type 0} (client : Client X) (codec : Codec P) (repos : Dict (EntityRepo P D X))
    (reducers : Option (Dict (Reducer P D))) (t : Traffic (List Written) Cause) where
  open client use {Db}

  -- Every branch of the epic answers its own transaction, with one of the two types.
  merge_entity_epic-IsAnswer :
      (rs : Option (Dict (Reducer P D))) (c : Commit P) (db : Db)
      → IsAnswer merge_options t.token
          (merge_entity_epic client codec repos (some t.token) rs (some c) db).0
  unfolding merge_entity_epic
  merge_entity_epic-IsAnswer none c db = record { own = refl; awaited = λ h. refl }
  merge_entity_epic-IsAnswer (some rs) c db =
      elim (Option-cases (lookup (text_of c.entity_name) rs)) [
        | inl missing ↦ rw (merge_entity_epic, missing) (record { own = refl; awaited = λ h. refl })
        | inr (reducer, found) ↦
            rw (merge_entity_epic, found)
              (respond-IsAnswer t.token (merge_entity client codec repos c (some reducer) db).0)
      ]

  publish_result-ends :
      (hub : Hub P) (c : Commit P) (r : HandlerResponse (List Written) Cause)
      → is_some (publish_result hub c r).ends ≡ true
  unfolding publish_result
  publish_result-ends hub c r = ground arith

  merge_arrived-ends :
      IsForeign merge_options t
      → (hub : Hub P) (c : Commit P) (db : Db)
      → is_some (merge_arrived client codec repos hub reducers t c db).0.ends ≡ true
  unfolding merge_arrived merge_one_entity
  merge_arrived-ends f hub c db =
      let answer = (merge_entity_epic client codec repos (some t.token) reducers (some c) db).0 in
      rw
        (
          merge_arrived,
          dispatch_lem projection_handlers merge_options "[Project] Merge Entity" t answer
              merge_options-IsSlice f refl refl (merge_entity_epic-IsAnswer reducers c db),
        )
        (publish_result-ends hub c (outcome merge_options answer))

  -- If the dispatch of a merge is among actions of other transactions only, the listener's promise
  -- is settled for every event, in every database, whichever reducers are given.
  pub on_event-ends :
      IsForeign merge_options t
      → (hub : Hub P) (e : ContractEvent) (db : Db)
      → is_some (on_event client codec repos hub reducers t e db).0.ends ≡ true
  unfolding on_event
  on_event-ends f hub e db = elim (Option-cases (hub.parse e.payload)) [
    | inl malformed ↦ rw (on_event, malformed) (ground arith)
    | inr (c, parsed) ↦ rw (on_event, parsed) (ground (arith, merge_arrived-ends f hub c db))
  ]
