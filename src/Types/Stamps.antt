-- ===== src/Types/Stamps.antt =====
-- packages/fabric-cqrs/src/utils: addCreatedAt.ts, addCreator.ts and addTimestamp.ts. The clock is
-- an argument.
use fabric_es.Prelude.{ℕ, String, some, List, map}
use fabric_es.Types.{Event}

module _ {P : Type 0} where
  created_at : ℕ → Event P → Event P
  created_at now e = record e { payload = record e.payload { created = some now; ts = some now } }

  timestamped : ℕ → Event P → Event P
  timestamped now e = record e { payload = record e.payload { ts = some now } }

  created_by : String → Event P → Event P
  created_by enrollment_id e = record e {
    payload = record e.payload { creator = some enrollment_id };
  }

  unfoldable pub add_created_at : ℕ → List (Event P) → List (Event P)
  unfolding created_at
  add_created_at now = map (created_at now)

  unfoldable pub add_timestamp : ℕ → List (Event P) → List (Event P)
  unfolding timestamped
  add_timestamp now = map (timestamped now)

  unfoldable pub add_creator : String → List (Event P) → List (Event P)
  unfolding created_by
  add_creator enrollment_id = map (created_by enrollment_id)
