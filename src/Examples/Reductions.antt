-- ===== src/Examples/Reductions.antt =====
-- Histories and commits at concrete inputs.
use fabric_es.Prelude.{
  ℕ, String, ◌≡◌, refl, true, Option, none, some, List, [], ◌∷◌, ok, lookup, any,
}
use fabric_es.Types.{Event, Commit}
use fabric_es.Reducer.{
  Entity, Callback, get_reducer, tracking_reducer, compute_entity, includes, or_empty,
}
use fabric_es.Reducer.Stamping.{KeepsStamps, IsStamped, get_reducer-IsStamped}
use fabric_es.Reducer.Tracking.{
  contributes, distinct, tracking_reducer-organization, tracking_reducer-private_data,
}
use fabric_es.Reducer.Compute.{IsTracked, compute_entity-IsTracked}
use fabric_es.Reducer.Group.{
  Grouped, commits_to_group_by_entity_id, events_for, of_entity, IsSettled,
  commits_to_group-IsSettled,
}

-- Keeps the last payload.
abbrev pub keep : Callback String String
keep none e = some (record {
  id = e.payload.id;
  domain = e.payload.body;
  creator = none;
  created = none;
  ts = none;
  organization = none;
  private_data = none;
})
keep (some n) e = some (record n { domain = e.payload.body })

keep-KeepsStamps : KeepsStamps keep
keep-KeepsStamps = record {
  keeps = λ n e. (record n { domain = e.payload.body }, refl, refl, refl, refl);
}

abbrev pub event : String → String → ℕ → Event String
event type name time = record {
  type = type;
  life_cycle = none;
  payload = record {
    body = name;
    id = some "i1";
    entity_name = some name;
    tag = none;
    creator = some "admin";
    created = some time;
    ts = some time;
  };
}

abbrev pub commit : String → List (Event String) → Commit String
commit org es = record {
  id = some "i1";
  entity_name = some "doc";
  version = some 0;
  commit_id = some "c1";
  entity_id = some "i1";
  msp_id = some org;
  events = some es;
  signed_request = none;
}

abbrev history : List (Event String)
history = event "Created" "a" 3 ∷ event "Changed" "b" 7 ∷ []

abbrev start : Entity String
start = record {
  id = some "i1";
  domain = "";
  creator = none;
  created = none;
  ts = none;
  organization = none;
  private_data = none;
}

get_reducer-IsStamped_example :
    (m : Entity String) × (get_reducer keep history (some start) ≡ some m)
    × IsStamped history start m
get_reducer-IsStamped_example = get_reducer-IsStamped keep keep-KeepsStamps history start

abbrev commits : List (Commit String)
commits =
    commit "Org1MSP" history ∷ commit "Org2MSP" (event "PrivateDataTracked" "secret" 8 ∷ []) ∷ []

abbrev reducer : List (Event String) → Option (Entity String)
reducer es = get_reducer keep es none

tracking_reducer-organization_example :
    (includes (some "Org1MSP") (tracking_reducer commits).organization
      ≡ any (contributes (some "Org1MSP")) commits)
    × (distinct (tracking_reducer commits).organization ≡ true)
tracking_reducer-organization_example = tracking_reducer-organization commits (some "Org1MSP")

tracking_reducer-private_data_example :
    or_empty (lookup "secret" (tracking_reducer commits).private_data) ≡ some "Org2MSP" ∷ []
tracking_reducer-private_data_example = tracking_reducer-private_data commits "secret"

abbrev first : Entity String
first = record {
  id = some "i1";
  domain = "secret";
  creator = some "admin";
  created = some 3;
  ts = some 8;
  organization = none;
  private_data = none;
}

compute_entity-IsTracked_example :
    (m : Entity String) × (compute_entity commits reducer
      ≡ ok (record { state = some m; reduced = true }))
    × IsTracked commits first m
compute_entity-IsTracked_example =
    compute_entity-IsTracked commits reducer first refl (unfold get_reducer in refl) refl refl

abbrev nothing : List (Event String) → Option (Entity String)
nothing es = none

abbrev placeholder : List (Commit String)
placeholder = commit "Org2MSP" (event "PrivateDataTracked" "secret" 8 ∷ []) ∷ []

commits_to_group-IsSettled_example :
    (r : Grouped String) × (commits_to_group_by_entity_id reducer commits ≡ ok r)
    × ((k : String)
        → any (of_entity k) commits ≡ true
        → IsSettled reducer k (events_for k commits) r)
commits_to_group-IsSettled_example = commits_to_group-IsSettled reducer commits refl
