-- ===== src/Examples/Arrivals.antt =====
-- The listener of the event hub over a client in memory.
use fabric_es.Prelude.{
  String, ◌≡◌, refl, true, none, some, List, [], ◌∷◌, ok, lookup, ◌==◌, is_some, if◌then◌else◌,
}
use fabric_es.Types.Guards.{is_commit}
use fabric_es.Redis.Keys.{commit_key, entity_key}
use fabric_es.Redis.Laws.{commit_as_read}
use fabric_es.QueryDatabase.Entities.{Written, reduce_error}
use fabric_es.QueryDatabase.Merging.{IsMerged}
use fabric_es.Store.{initial_state, get_success_action}
use fabric_es.Store.Dispatcher.{rejected, action_failed, settle}
use fabric_es.Store.Exchange.{Traffic, IsForeign}
use fabric_es.Store.Epics.{Cause, errors, merge_entity_success, merge_entity_error}
use fabric_es.QueryHandler.{
  ContractEvent, Hub, commit_arrived, system_event, quiet, merge_options, on_event,
}
use fabric_es.QueryHandler.Arrivals.{IsIgnored, IsAccepted, on_event-ignored}
use fabric_es.QueryHandler.Merged.{on_event-IsMerged, on_event-irreducible, on_event-ends}
use fabric_es.Examples.Memory.{Server, memory, memory_laws}
use fabric_es.Examples.Reductions.{event}
use fabric_es.Examples.Projections.{
  codec, created, changed, arriving, server, docs, reducer, merged, nothing, log_lem, reduced_lem,
  nothing_lem, keys_differ,
}

-- Another merge is answered before this one.
abbrev traffic : Traffic (List Written) Cause
traffic = record {
  token = "t1";
  state = initial_state;
  before = get_success_action merge_entity_success (some "t0") none ∷ [];
  after = [];
}

foreign : IsForeign merge_options traffic
unfolding settle
foreign = record { before = refl; state = refl }

abbrev pub hub : Hub String
hub = record {
  is_reconciled = true;
  entity_names = "doc" ∷ [];
  parse = λ s. if s == "arriving" then some arriving else none;
  pub_sub = some (λ m. ok tt);
}

abbrev arrival : ContractEvent
arrival = record { event_name = "createCommit"; payload = "arriving" }

accepted : IsAccepted hub arrival arriving
unfolding is_commit
accepted = record { reconciled = refl; name = refl; parsed = refl; valid = refl; subscribed = refl }

on_event-ignored_example :
    on_event memory codec
      (("doc", docs) ∷ [])
      hub
      (some (("doc", reducer) ∷ []))
      traffic
      (record arrival { event_name = "deleteCommit" })
      server
    ≡ (quiet, server)
on_event-ignored_example =
    on_event-ignored memory codec (("doc", docs) ∷ []) hub (some (("doc", reducer) ∷ [])) traffic
      (record arrival { event_name = "deleteCommit" }) server
      (IsIgnored.other_event (keys_differ "deleteCommit" "createCommit" refl))

on_event-IsMerged_example :
    (db' : Server) × (on_event memory codec
        (("doc", docs) ∷ [])
        hub
        (some (("doc", reducer) ∷ []))
        traffic
        arrival
        server
      ≡ (
        record {
          ends = some (ok tt);
          published = commit_arrived arriving ("Changed" ∷ []) (some "e:doc:i1") ∷ [];
        },
        db',
      ))
    × IsMerged memory_laws codec docs server db' arriving
        (commit_as_read codec created ∷ commit_as_read codec changed ∷ arriving ∷ [])
        merged
        "e:doc:i1"
        "c:doc:i1:c3"
unfolding entity_key
on_event-IsMerged_example =
    on_event-IsMerged memory codec (("doc", docs) ∷ []) (("doc", reducer) ∷ []) traffic foreign docs
      memory_laws hub (λ m. ok tt) refl arrival reducer arriving accepted (unfold lookup in refl)
      server (created ∷ changed ∷ []) merged (event "Changed" "c" 9 ∷ []) "e:doc:i1" "c:doc:i1:c3"
      tt (unfold lookup in refl) refl (unfold commit_key in refl) log_lem reduced_lem refl
      (unfold lookup in refl) (unfold lookup in refl)

on_event-irreducible_example :
    on_event memory codec
      (("doc", docs) ∷ [])
      hub
      (some (("doc", nothing) ∷ []))
      traffic
      arrival
      server
    ≡ (
      let failure = system_event (
            rejected
              (action_failed merge_entity_error (some (errors (reduce_error arriving).errors)))) in
          record { ends = some (ok tt); published = failure ∷ [] },
      server,
    )
on_event-irreducible_example =
    on_event-irreducible memory codec (("doc", docs) ∷ []) (("doc", nothing) ∷ []) traffic foreign
      docs memory_laws hub (λ m. ok tt) refl arrival nothing arriving accepted
      (unfold lookup in refl) server (created ∷ changed ∷ []) none tt (unfold lookup in refl)
      log_lem nothing_lem refl

on_event-ends_example :
    is_some
      (on_event memory codec
        (("doc", docs) ∷ [])
        hub
        (some (("doc", reducer) ∷ []))
        traffic
        arrival
        server).0.ends
    ≡ true
on_event-ends_example =
    on_event-ends memory codec (("doc", docs) ∷ []) (some (("doc", reducer) ∷ [])) traffic foreign
      hub arrival server
