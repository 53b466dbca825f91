-- ===== src/Examples/Deletions.antt =====
-- Deletions over a client in memory that holds two commits.
use fabric_es.Prelude.{◌≡◌, refl, true, some, [], ◌∷◌, lookup}
use fabric_es.Redis.Keys.{commits_by_entity_name, get_pattern}
use fabric_es.QueryDatabase.{delete_commit_by_entity_id, delete_commit_by_entity_name}
use fabric_es.QueryDatabase.Entities.{delete_entity_by_entity_name}
use fabric_es.QueryDatabase.Deleting.{Deletes, are_distinct, deletions-AreDeleted}
use fabric_es.Examples.Memory.{memory, memory_laws, memory_deletes}
use fabric_es.Examples.Projections.{codec, docs, server}

deletions-AreDeleted_example :
    Deletes memory_deletes codec
      (("doc", docs) ∷ [])
      (delete_commit_by_entity_id memory codec (some "doc") (some "i1"))
      "c:doc:i1:"
      server
    × Deletes memory_deletes codec
        (("doc", docs) ∷ [])
        (delete_commit_by_entity_name memory codec (some "doc"))
        "c:doc:"
        server
    × Deletes memory_deletes codec
        (("doc", docs) ∷ [])
        (delete_entity_by_entity_name memory codec (("doc", docs) ∷ []) (some "doc"))
        "e:doc:"
        server
unfolding lookup
deletions-AreDeleted_example =
    deletions-AreDeleted memory_deletes codec (("doc", docs) ∷ []) "doc" "i1" docs server tt tt refl
      refl refl refl refl

-- Both keys are found.
test : are_distinct (memory_laws.keys server (get_pattern (commits_by_entity_name "doc"))) ≡ true
unfolding get_pattern lookup
test = refl
