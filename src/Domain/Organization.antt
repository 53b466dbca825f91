-- ===== src/Domain/Organization.antt =====
-- packages/gateway-lib/src/common/model/organization/domain: the reducer and the command handler of
-- organizations.
pub mod Table
pub mod Laws
pub mod Refusals
use fabric_es.Prelude.{
  ℕ, String, Bool, not, ◌==◌, ◌&&◌, Option, none, some, List, [], ◌∷◌, ◌++◌, Result, ok, throw,
  Error, truthy, same, if◌then◌else◌,
}
use fabric_es.Prelude.Action.{Action, pure, raise, ◌>>=◌}
use fabric_es.Types.{Event, Commit}
use fabric_es.Reducer.{Entity, Callback}
use fabric_es.Repository.{Repo, save_found}
use fabric_es.Domain.Handlers.{
  required_data_missing, entity_missing, spread, fresh, plain, update_existing,
}

-- model.ts
pub data OrgStatus : Type 0 where
  up down : OrgStatus

pub record Organization : Type 0 where
  pub msp_id : Option String
  pub name : Option String
  pub url : Option String
  pub pubkey : Option String
  pub status : Option OrgStatus
  pub timestamp : Option ℕ

-- events.ts: the fields that some event's payload has.
pub record OrgPayload : Type 0 where
  pub msp_id : Option String
  pub name : Option String
  pub url : Option String
  pub pubkey : Option String
  pub timestamp : Option ℕ

abbrev pub no_org : Organization
no_org = record {
  msp_id = none;
  name = none;
  url = none;
  pubkey = none;
  status = none;
  timestamp = none;
}

abbrev with_org :
    Option (Entity Organization) → (Organization → Organization) → Option (Entity Organization)
with_org org f = let n = spread no_org org in some (record n { domain = f n.domain })

-- reducer.ts
unfoldable pub org_reducer : Callback OrgPayload Organization
org_reducer org e =
    let p = e.payload.body in
    if e.type == "OrgStarted"
    then (let n = spread no_org org in
        some (record n {
          id = p.msp_id;
          domain = record n.domain { msp_id = p.msp_id; timestamp = p.timestamp; status = some up };
        }))
    else if e.type == "OrgNameDefined"
    then with_org org (λ o. record o { name = p.name })
    else if e.type == "OrgUrlDefined"
    then with_org org (λ o. record o { url = p.url })
    else if e.type == "OrgPubkeyLoaded"
    then with_org org (λ o. record o { pubkey = p.pubkey })
    else if e.type == "OrgDowned"
    then with_org org (λ o. record o { status = some down })
    else org

-- commands.ts
pub data OrgCommand : Type 0 where
  start_org :
      (msp_id : String) (name url pubkey : Option String) (timestamp : Option ℕ) → OrgCommand
  define_org_name define_org_url load_pubkey :
      (msp_id : String) (value : Option String) (timestamp : Option ℕ) → OrgCommand
  shutdown_org : (msp_id : String) (timestamp : Option ℕ) → OrgCommand

abbrev base : String → Option ℕ → OrgPayload
base msp_id timestamp = record {
  msp_id = some msp_id;
  name = none;
  url = none;
  pubkey = none;
  timestamp = timestamp;
}

abbrev pub started : String → Option ℕ → Event OrgPayload
started id t = plain "OrgStarted" none (base id t)

abbrev pub name_defined : String → Option String → Option ℕ → Event OrgPayload
name_defined id name t = plain "OrgNameDefined" none (record (base id t) { name = name })

abbrev pub url_defined : String → Option String → Option ℕ → Event OrgPayload
url_defined id url t = plain "OrgUrlDefined" none (record (base id t) { url = url })

abbrev pub pubkey_loaded : String → Option String → Option ℕ → Event OrgPayload
pubkey_loaded id pubkey t = plain "OrgPubkeyLoaded" none (record (base id t) { pubkey = pubkey })

abbrev pub optionally : Bool → Event OrgPayload → List (Event OrgPayload)
optionally b e = if b then e ∷ [] else []

-- The events of `StartOrg` for an organization that exists, and for a new one.
unfoldable pub restart_events :
    String
    → Option String
    → Option String
    → Option String
    → Option ℕ
    → Organization
    → List (Event OrgPayload)
restart_events id name url pubkey t o =
    started id t ∷ optionally (truthy name && not (same name o.name)) (name_defined id name t)
    ++ (optionally (truthy url && not (same url o.url)) (url_defined id url t)
        ++ optionally (truthy pubkey && not (same pubkey o.pubkey)) (pubkey_loaded id pubkey t))

unfoldable pub start_events :
    String → Option String → Option String → Option String → Option ℕ → List (Event OrgPayload)
start_events id name url pubkey t =
    started id t ∷ name_defined id name t ∷ optionally (truthy url) (url_defined id url t)
    ++ optionally (truthy pubkey) (pubkey_loaded id pubkey t)

-- What `DefineOrgName` saves for an existing organization, or what it throws.
unfoldable pub decide_name :
    String → Option String → Option ℕ → Entity Organization → Result (List (Event OrgPayload))
decide_name id name t org =
    if truthy name then ok (name_defined id name t ∷ []) else throw required_data_missing

abbrev pub downed : String → Option ℕ → Event OrgPayload
downed id t = plain "OrgDowned" none (base id t)

abbrev pub org_id : OrgCommand → String
org_id (start_org id name url pubkey t) = id
org_id (define_org_name id name t) = id
org_id (define_org_url id url t) = id
org_id (load_pubkey id pubkey t) = id
org_id (shutdown_org id t) = id

-- handler.ts: `ShutdownOrg` of no organization resolves to `undefined`.
module _ (repo : Repo OrgPayload Organization) where
  unfoldable pub start :
      String
      → Option String
      → Option String
      → Option String
      → Option ℕ
      → Action repo.Db (Commit OrgPayload)
  unfolding restart_events start_events
  start id name url pubkey t = do
    found ← repo.get_by_id id
    elim found.current_state [
      | some org ↦ save_found repo id found (restart_events id name url pubkey t org.domain)
      | none ↦
          if truthy name
          then repo.create id (start_events id name url pubkey t)
          else raise required_data_missing
    ]

  unfoldable pub shutdown : String → Option ℕ → Action repo.Db (Option (Commit OrgPayload))
  shutdown id t = do
    found ← repo.get_by_id id
    elim found.current_state [
      | none ↦ pure none
      | some org ↦ do c ← save_found repo id found (downed id t ∷ []); pure (some c)
    ]

  unfoldable pub org_command_handler : OrgCommand → Action repo.Db (Option (Commit OrgPayload))
  unfolding start shutdown decide_name
  org_command_handler (start_org id name url pubkey t) = do
    c ← start id name url pubkey t
    pure (some c)
  org_command_handler (define_org_name id name t) = do
    c ← update_existing repo id entity_missing (decide_name id name t)
    pure (some c)
  org_command_handler (define_org_url id url t) = do
    c ← update_existing repo id entity_missing (λ org. ok (url_defined id url t ∷ []))
    pure (some c)
  org_command_handler (load_pubkey id pubkey t) = do
    c ← update_existing repo id entity_missing (λ org. ok (pubkey_loaded id pubkey t ∷ []))
    pure (some c)
  org_command_handler (shutdown_org id t) = shutdown id t
