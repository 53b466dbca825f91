-- ===== src/QueryHandler/Arrivals.antt =====
-- What the listener of packages/fabric-cqrs/src/queryHandler/createQueryHandler.ts does with an event:
-- which events it passes over, and what it merges and publishes for the others.
use mathlib.Core.Option
use fabric_es.Prelude.{
  String, ◌≡◌, ◌≢◌, refl, ap, ◌∙◌, true, false, ◌==◌, Option, none, some, List, [], ◌∷◌, map,
  Bool-cases, inl, inr, Result, ok, throw, Dict, lookup, text_of, arith, ==-ne, if◌then◌else◌,
}
use fabric_es.Types.{Event, Commit}
use fabric_es.Types.Guards.{is_commit}
use fabric_es.Reducer.{Reducer}
use fabric_es.Redis.{Codec, Client}
use fabric_es.Redis.Keys.{commit_key, entity_key}
use fabric_es.Redis.Held.{IsClient}
use fabric_es.Redis.Repository.{EntityRepo}
use fabric_es.Redis.Notification.{Response}
use fabric_es.QueryDatabase.Entities.{Written, merge_entity}
use fabric_es.QueryDatabase.Merging.{merged_answer}
use fabric_es.Store.{projection_handlers}
use fabric_es.Store.Dispatcher.{HandlerResponse, accept, resolved, rejected, action_failed}
use fabric_es.Store.Outcomes.{IsSlice, projection_handlers-IsHandler}
use fabric_es.Store.Exchange.{Traffic, IsForeign, IsAnswer, dispatch_lem, outcome}
use fabric_es.Store.Epics.{
  Cause, errors, caught, respond, merge_entity_epic, merge_entity_success, merge_entity_error,
}
use fabric_es.QueryHandler.{
  ContractEvent, Hub, Message, commit_arrived, quiet, includes_name, merge_options, publish_result,
  merge_one_entity, merge_arrived, on_event,
}

-- The events that the listener passes over.
pub data IsIgnored {P : Type 0} (hub : Hub P) (e : ContractEvent) : Type 0 where
  unreconciled : hub.is_reconciled ≡ false → IsIgnored hub e
  other_event : e.event_name ≢ "createCommit" → IsIgnored hub e
  malformed : hub.parse e.payload ≡ none → IsIgnored hub e
  no_commit : (c : Commit P) → hub.parse e.payload ≡ some c → is_commit c ≡ false → IsIgnored hub e
  unsubscribed :
      (c : Commit P)
      → hub.parse e.payload ≡ some c
      → includes_name hub.entity_names c.entity_name ≡ false
      → IsIgnored hub e

-- The events whose commit the listener merges.
pub record IsAccepted {P : Type 0} (hub : Hub P) (e : ContractEvent) (c : Commit P) : Type 0 where
  pub reconciled : hub.is_reconciled ≡ true
  pub name : e.event_name ≡ "createCommit"
  pub parsed : hub.parse e.payload ≡ some c
  pub valid : is_commit c ≡ true
  pub subscribed : includes_name hub.entity_names c.entity_name ≡ true

pub merge_options-IsSlice : IsSlice {R = List Written} {E = Cause} projection_handlers merge_options
unfolding lookup projection_handlers
merge_options-IsSlice = record {
  handled = projection_handlers-IsHandler _ _;
  success = refl;
  error = refl;
  apart = refl;
}

module _ {P D X : Type 0} (client : Client X) (codec : Codec P) (repos : Dict (EntityRepo P D X))
    (hub : Hub P) (reducers : Option (Dict (Reducer P D))) (t : Traffic (List Written) Cause) where
  open client use {Db}

  -- An event before the reconciliation, of another name, with a payload that does not parse or is
  -- no commit, or of an entity name that is not subscribed, is passed over: the listener ends
  -- without an error, publishes nothing and leaves the database as it is.
  pub on_event-ignored :
      (e : ContractEvent) (db : Db)
      → IsIgnored hub e
      → on_event client codec repos hub reducers t e db ≡ (quiet, db)
  unfolding on_event
  on_event-ignored e db (unreconciled h) = rw h refl
  on_event-ignored e db (other_event h) = rw (==-ne e.event_name "createCommit" h) (ground arith)
  on_event-ignored e db (malformed h) = rw (on_event, h) (ground arith)
  on_event-ignored e db (no_commit c p h) = rw (on_event, p) (rw h (ground arith))
  on_event-ignored e db (unsubscribed c p h) = rw (on_event, p) (rw h (ground arith))

  pub on_event-accepted :
      (e : ContractEvent) (c : Commit P) (db : Db)
      → IsAccepted hub e c
      → on_event client codec repos hub reducers t e db
        ≡ merge_arrived client codec repos hub reducers t c db
  unfolding on_event
  on_event-accepted e c db a =
      rw (on_event, a.parsed) (rw (a.reconciled, a.name, a.valid, a.subscribed) refl)

-- What the dispatch of a merge resolves to.
abbrev pub merge_response : Result (Response (List Written)) → HandlerResponse (List Written) Cause
merge_response (throw e) = rejected (action_failed merge_entity_error (some (caught e)))
merge_response (ok r) =
    if r.status == "OK"
    then resolved (Option.map (λ ws. ws) r.result)
    else rejected (action_failed merge_entity_error (some (errors r.errors)))

publish_result-resolved :
    {P : Type 0} (hub : Hub P) (c : Commit P) (publish : Message P → Result (Unit {0}))
    (es : List (Event P)) (w : Written) (ws : List Written)
    → hub.pub_sub ≡ some publish
    → c.events ≡ some es
    → publish_result hub c (resolved (some (w ∷ ws))) ≡ record {
      ends = some (ok tt);
      published = commit_arrived c (map (λ e. e.type) es) w.key ∷ [];
    }
unfolding publish_result
publish_result-resolved hub c publish es w ws s h = ground arith

pub respond-IsAnswer :
    (token : String) (r : Result (Response (List Written)))
    → IsAnswer merge_options token
        (respond merge_entity_success merge_entity_error caught (λ ws. ws) (some token) r)
unfolding respond
respond-IsAnswer token (throw e) = record { own = refl; awaited = λ h. refl }
respond-IsAnswer token (ok r) = elim (Bool-cases (r.status == "OK")) [
  | inl y ↦ rw y (record { own = refl; awaited = λ h. cc })
  | inr n ↦ rw n (record { own = refl; awaited = λ h. refl })
]

module _ {P D X : Type 0} (client : Client X) (codec : Codec P) (repos : Dict (EntityRepo P D X))
    (reducers : Dict (Reducer P D)) (t : Traffic (List Written) Cause)
    (f : IsForeign merge_options t) where
  open client use {Db}

  outcome-respond :
      (r : Result (Response (List Written)))
      → outcome merge_options
          (respond merge_entity_success merge_entity_error caught (λ ws. ws) (some t.token) r)
        ≡ merge_response r
  unfolding respond accept
  outcome-respond (throw e) = refl
  outcome-respond (ok r) = elim (Bool-cases (r.status == "OK")) [
    | inl y ↦ rw y refl
    | inr n ↦ rw n refl
  ]

  -- The response of the dispatch is that of the query database, whatever others do meanwhile.
  pub merge_one_entity_lem :
      (c : Commit P) (reducer : Reducer P D) (db : Db)
      → lookup (text_of c.entity_name) reducers ≡ some reducer
      → merge_one_entity client codec repos (some reducers) t c db ≡ (
        some (merge_response (merge_entity client codec repos c (some reducer) db).0),
        (merge_entity client codec repos c (some reducer) db).1,
      )
  unfolding merge_one_entity merge_entity_epic
  merge_one_entity_lem c reducer db known =
      let r = (merge_entity client codec repos c (some reducer) db).0 in
      let db' = (merge_entity client codec repos c (some reducer) db).1 in
      rw (merge_one_entity, merge_entity_epic, known)
        (ap (λ d. (d, db'))
          (dispatch_lem projection_handlers merge_options "[Project] Merge Entity" t _
              merge_options-IsSlice f refl refl (respond-IsAnswer t.token r)
            ∙ ap some (outcome-respond r)))

  module _ (repo : EntityRepo P D X) (laws : IsClient client) (hub : Hub P)
      (publish : Message P → Result (Unit {0})) (listening : hub.pub_sub ≡ some publish) where
    pub merge_arrived-IsMerged :
        (reducer : Reducer P D) (c : Commit P) (db db' : Db) (es : List (Event P))
        → lookup (text_of c.entity_name) reducers ≡ some reducer
        → c.events ≡ some es
        → merge_entity client codec repos c (some reducer) db
          ≡ (ok (merged_answer laws codec repo c), db')
        → merge_arrived client codec repos hub (some reducers) t c db ≡ (
          record {
            ends = some (ok tt);
            published =
                commit_arrived c (map (λ e. e.type) es) (entity_key repo.entity_name c.id) ∷ [];
          },
          db',
        )
    unfolding merge_arrived publish_result
    merge_arrived-IsMerged reducer c db db' es known h run =
        rw (merge_arrived, merge_one_entity_lem c reducer db known)
          (rw run (
            ap (λ x. (x, db'))
              (publish_result-resolved hub c publish es
                (record { key = entity_key repo.entity_name c.id; status = "OK" })
                (record { key = commit_key c; status = "OK" } ∷ []) listening h)))
