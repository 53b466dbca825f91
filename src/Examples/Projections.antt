-- ===== src/Examples/Projections.antt =====
-- Merging commits over a client in memory.
use mathlib.Core.List.{Permᴰ}
use fabric_es.Prelude.{
  ◌≢◌, true, false, eq_iff, Dict, ℕ, zero, suc, String, ◌≡◌, refl, true, false, Option, none, some,
  List, [], ◌∷◌, ok, Error, Dict, lookup, assign, any, is_some, ◌==◌, map, if◌then◌else◌, arith,
}
use fabric_es.Types.{Event, Commit}
use fabric_es.Types.Guards.{is_commit}
use fabric_es.Reducer.{Entity, get_reducer, compute_entity}
use fabric_es.Redis.Keys.{each, get_pattern, commit_key, entity_key}
use fabric_es.QueryDatabase.Entities.{merge_entity, reduce_error}
use fabric_es.QueryDatabase.Projection.{IsLog, query_commits-IsLog}
use fabric_es.QueryDatabase.Merging.{
  IsMerged, merged_answer, merge_entity-IsMerged, merge_entity-irreducible,
}
use fabric_es.Examples.Reductions.{keep, event, commit}
use mathlib.Core.Option
use fabric_es.Redis.{Codec, CommitInRedis}
use fabric_es.Redis.Held.{held_commit, filled_commit, nothing as no_value}
use fabric_es.Redis.Laws.{hash_of, restored, as_read, commit_as_read, post_selector-pre_selector}
use fabric_es.Redis.Selectors.{first_ts, pre_selector, post_selector}
use fabric_es.QueryDatabase.{Batch, merge_commit_batch}
use fabric_es.QueryDatabase.Batches.{AreStored, Avoids, merge_commit_batch-AreStored}
use fabric_es.Redis.Flags.{notify-get_notification}
use fabric_es.Redis.Notification.{
  Fields, ok_with, notify, get_notification, clear_notification, notification_key,
}
use fabric_es.Redis.Repository.{EntityRepo, query_commits_by_pattern}
use fabric_es.Examples.Memory.{Server, tally, memory, memory_laws, memory_flags}

-- The texts of the histories of this file.
abbrev pub untally : String → Option ℕ
untally String.[] = some 0
untally (String.◌∷◌ c s) = Option.map (λ n. suc n) (untally s)

pub untally-tally : (n : ℕ) → untally (tally n) ≡ some n
untally-tally zero = refl
untally-tally (suc n) = rw (untally-tally n) refl

abbrev pub first_type : List (Event String) → String
first_type [] = ""
first_type (e ∷ es) = e.type

-- An event of a commit after the first, which has no creator.
abbrev pub unsigned : Event String → Event String
unsigned e = record e { payload = record (e.payload) { creator = none } }

abbrev pub parse : String → Option (List (Event String))
parse s =
    if s == "Created"
    then some (event "Created" "a" 3 ∷ [])
    else if s == "Changed"
    then some (unsigned (event "Changed" "b" 7) ∷ [])
    else none

abbrev pub codec : Codec String
codec = record {
  stringify = first_type;
  parse = parse;
  Keeps = λ es. parse (first_type es) ≡ some es;
  parse-stringify = λ es h. h;
  stringify_organization = λ os. "";
  stringify_private_data = λ t. "";
  show = tally;
  parse_int = untally;
  parse_int-show = untally-tally;
}

abbrev pub created : Commit String
created = record (commit "Org1MSP" (event "Created" "a" 3 ∷ [])) { commit_id = some "c1" }

abbrev pub changed : Commit String
changed = record (commit "Org2MSP" (unsigned (event "Changed" "b" 7) ∷ [])) {
  commit_id = some "c2";
}

abbrev pub arriving : Commit String
arriving = record (commit "Org1MSP" (event "Changed" "c" 9 ∷ [])) { commit_id = some "c3" }

-- The commits are stored in the order in which they were not made.
abbrev pub server : Server
server =
    ("c:doc:i1:c2", held_commit (filled_commit (hash_of codec changed)))
    ∷ ("c:doc:i1:c1", held_commit (filled_commit (hash_of codec created)))
    ∷ []

abbrev pub docs : EntityRepo String String String
docs = record { entity_name = "doc"; own_selector = λ n log. n.domain }

abbrev pub reducer : List (Event String) → Option (Entity String)
reducer es = get_reducer keep es none

abbrev pub merged : Entity String
merged = record {
  id = some "i1";
  domain = "c";
  creator = some "admin";
  created = some 3;
  ts = some 9;
  organization = some (some "Org1MSP" ∷ some "Org2MSP" ∷ []);
  private_data = none;
}

pub log_lem : IsLog memory_laws codec server arriving (created ∷ changed ∷ [])
unfolding lookup get_pattern first_ts
log_lem = record {
  found = changed ∷ created ∷ [];
  held = (refl, refl, refl, refl, (refl, refl, refl, refl, tt));
  perm = Permᴰ.swap refl refl;
  apart = (refl, (λ h. ground arith, tt), (refl, tt, tt));
  sorted = (refl, tt);
}

pub reduced_lem :
    compute_entity
      (commit_as_read codec created ∷ commit_as_read codec changed ∷ arriving ∷ [])
      reducer
    ≡ ok (record { state = some merged; reduced = true })
unfolding compute_entity get_reducer lookup assign
reduced_lem = refl

merge_entity-IsMerged_example :
    (db' : Server) × (merge_entity memory codec (("doc", docs) ∷ []) arriving (some reducer) server
      ≡ (ok (merged_answer memory_laws codec docs arriving), db'))
    × IsMerged memory_laws codec docs server db' arriving
        (commit_as_read codec created ∷ commit_as_read codec changed ∷ arriving ∷ [])
        merged
        "e:doc:i1"
        "c:doc:i1:c3"
merge_entity-IsMerged_example =
    merge_entity-IsMerged memory_laws codec docs (("doc", docs) ∷ []) reducer server arriving
      (created ∷ changed ∷ []) merged "e:doc:i1" "c:doc:i1:c3" tt (unfold lookup in refl)
      (unfold is_commit in refl) refl (unfold commit_key in refl) log_lem reduced_lem
      (unfold entity_key in refl) (unfold lookup in refl) (unfold lookup in refl)

query_commits-IsLog_example :
    (es : List (Option Error)) × (query_commits_by_pattern memory codec server "c:doc:i1:*"
      ≡ (each es, some (map (as_read codec) (created ∷ changed ∷ []))))
    × (any is_some es ≡ false)
unfolding get_pattern
query_commits-IsLog_example =
    query_commits-IsLog memory_laws codec server arriving (created ∷ changed ∷ []) tt log_lem

-- A reducer that makes nothing of any history.
abbrev pub nothing : List (Event String) → Option (Entity String)
nothing es = none

pub nothing_lem :
    compute_entity
      (commit_as_read codec created ∷ commit_as_read codec changed ∷ arriving ∷ [])
      nothing
    ≡ ok (record { state = none; reduced = true })
unfolding compute_entity lookup assign
nothing_lem = refl

merge_entity-irreducible_example :
    merge_entity memory codec (("doc", docs) ∷ []) arriving (some nothing) server
    ≡ (ok (reduce_error arriving), server)
merge_entity-irreducible_example =
    merge_entity-irreducible memory_laws codec docs (("doc", docs) ∷ []) nothing server arriving
      (created ∷ changed ∷ []) none tt (unfold lookup in refl) (unfold is_commit in refl) log_lem
      nothing_lem refl

post_selector-pre_selector_example :
    (r : CommitInRedis) × (pre_selector codec created ≡ ok r)
    × (post_selector codec r ≡ restored codec created)
post_selector-pre_selector_example = post_selector-pre_selector codec created refl refl refl

abbrev fields : Fields
fields = record {
  creator = some "admin";
  entity_name = some "doc";
  id = some "i1";
  commit_id = some "c3";
}

notify-get_notification_example :
    (db1 : Server) × (db2 : Server) × (db3 : Server) × (db4 : Server) × (notify memory fields 86400
        server
      ≡ (record { status = "OK"; message = none; result = none; errors = none }, db1))
    × (get_notification memory fields db1
        ≡ (ok (ok_with (("n:admin:doc:i1:c3", some "1") ∷ [])), db2))
    × (get_notification memory fields db2
        ≡ (ok (ok_with (("n:admin:doc:i1:c3", some "0") ∷ [])), db3))
    × (clear_notification memory fields db3 ≡ (ok (ok_with ("n:admin:doc:i1:c3" ∷ [])), db4))
    × (memory_laws.value db4 "n:admin:doc:i1:c3" ≡ no_value)
unfolding notification_key
notify-get_notification_example =
    notify-get_notification memory_flags fields refl 86400 server tt refl

-- A server without commits.
abbrev pub empty : Server
empty = []

abbrev pub batch : Dict (Commit String)
batch = ("x", created) ∷ ("y", changed) ∷ []

abbrev pub plan : Dict (Commit String)
plan = ("c:doc:i1:c1", created) ∷ ("c:doc:i1:c2", changed) ∷ []

pub keys_differ : (a b : String) → (a == b) ≡ false → a ≢ b
keys_differ a b h e = ground (arith, eq_iff a b)

merge_commit_batch-AreStored_example :
    (b : Batch) × (db' : Server) × (merge_commit_batch memory codec (some "doc") (some batch) empty
      ≡ (ok b, db'))
    × Unit {0}
    × (b.status ≡ "OK")
    × (b.keys ≡ some "c:doc:i1:c1" ∷ some "c:doc:i1:c2" ∷ [])
    × (b.failures ≡ [])
    × AreStored memory_laws codec db' plan
    × ((j : String)
        → Avoids memory_laws codec j plan
        → memory_laws.value db' j ≡ memory_laws.value empty j)
unfolding commit_key
merge_commit_batch-AreStored_example =
    merge_commit_batch-AreStored memory_laws codec "doc" batch plan empty tt refl refl
      ((refl, refl, refl), (keys_differ _ _ refl, tt), ((refl, refl, refl), tt, tt))
      (unfold lookup in (refl, (refl, tt)))
