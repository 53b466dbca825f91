-- ===== src/Domain/Acl.antt =====
-- packages/gateway-lib/src/utils/aclService.ts: which organizations have access to a private entity.
pub mod Decisions
pub mod Access
use fabric_es.Prelude.{
  ℕ, zero, suc, ◌+◌, String, Bool, true, false, ◌==◌, Option, none, some, List, [], ◌∷◌, ◌++◌,
  length, foldl, Result, ok, throw, Error, new_error, ltb, truthy, truthy_num, text_of,
  if◌then◌else◌,
}
use fabric_es.Prelude.Action.{Action, raise}
use fabric_es.Types.{Event, Commit}
use fabric_es.Reducer.{or_empty}
use fabric_es.Redis.Selectors.{◌+++◌}
use fabric_es.Domain.Handlers.{plain}

pub record Acl : Type 0 where
  pub id : Option String
  pub entity : Option String
  pub entity_id : Option String
  pub accessor : Option String
  pub status : Option String
  pub create_at : Option ℕ
  pub revoke_at : Option ℕ
  pub expire_at : Option ℕ

-- The fields that some event's payload has.
pub record AclPayload : Type 0 where
  pub entity : Option String
  pub entity_id : Option String
  pub accessor : Option String
  pub grant_at : Option ℕ
  pub revoke_at : Option ℕ
  pub expire_at : Option ℕ

-- `{ ...acl }` of an object that may be null.
abbrev pub spread_acl : Option Acl → Acl
spread_acl (some acl) = acl
spread_acl none = record {
  id = none;
  entity = none;
  entity_id = none;
  accessor = none;
  status = none;
  create_at = none;
  revoke_at = none;
  expire_at = none;
}

-- `(now > expireAt) ? 'X' : 'A'`; a comparison with undefined is false.
abbrev pub status_at : ℕ → Option ℕ → String
status_at now none = "A"
status_at now (some t) = if ltb t now then "X" else "A"

-- `now` is what `Date.now()` gives at this event.
unfoldable pub acl_reducer : ℕ → Option Acl → Event AclPayload → Option Acl
acl_reducer now acl e =
    let p = e.payload.body in
    if e.type == "AclGranted"
    then elim acl [
      | some a ↦ some (record a {
        status = some (status_at now p.expire_at);
        revoke_at = none;
        expire_at = p.expire_at;
      })
      | none ↦ some (record {
        id = some (text_of p.entity_id +++ text_of p.accessor);
        entity = p.entity;
        entity_id = p.entity_id;
        accessor = p.accessor;
        status = some (status_at now p.expire_at);
        create_at = p.grant_at;
        revoke_at = none;
        expire_at = p.expire_at;
      })
    ]
    else if e.type == "AclRevoked"
    then some (record (spread_acl acl) { revoke_at = p.revoke_at; status = some "R" })
    else acl

-- `commit.events?.forEach`, with the clock at each event of the reduction: `n` of them are done.
unfoldable pub reduce_events : (ℕ → ℕ) → ℕ → Option Acl → List (Event AclPayload) → Option Acl
reduce_events clock n acl [] = acl
reduce_events clock n acl (e ∷ es) = reduce_events clock (suc n) (acl_reducer (clock n) acl e) es

-- The `reduce` over the commits.
unfoldable pub reduce_commits : (ℕ → ℕ) → ℕ → Option Acl → List (Commit AclPayload) → Option Acl
reduce_commits clock n acl [] = acl
reduce_commits clock n acl (c ∷ cs) =
    let es = or_empty c.events in
    reduce_commits clock (n + length es) (reduce_events clock n acl es) cs

-- What the service uses of the private repository: `create(…).save(…)`, and the data of
-- `getCommitById`.
pub record AclRepo : Type 1 where
  pub Db : Type 0
  pub create : String → List (Event AclPayload) → Action Db (Commit AclPayload)
  pub get_commit_by_id : String → Db → Option (List (Commit AclPayload))

abbrev pub granted : String → String → String → ℕ → ℕ → Event AclPayload
granted entity id accessor grant_at expire_at = plain "AclGranted" none (record {
  entity = some entity;
  entity_id = some id;
  accessor = some accessor;
  grant_at = some grant_at;
  revoke_at = none;
  expire_at = some expire_at;
})

abbrev pub revoked : String → String → String → ℕ → Event AclPayload
revoked entity id accessor revoke_at = plain "AclRevoked" none (record {
  entity = some entity;
  entity_id = some id;
  accessor = some accessor;
  grant_at = none;
  revoke_at = some revoke_at;
  expire_at = none;
})

-- `expireAt || (now + 86400000)`
abbrev pub expiry : ℕ → Option ℕ → ℕ
expiry now none = now + 86400000
expiry now (some t) = if truthy_num (some t) then t else now + 86400000

-- The error that a resolver returns.
abbrev pub forbidden : Error
forbidden = new_error "unauthorized access"

-- What a mutation answers.
pub data Answer : Type 0 where
  committed : Commit AclPayload → Answer
  refused : Error → Answer

module _ (repo : AclRepo) where
  unfoldable pub grant_acl :
      ℕ → String → String → String → Option ℕ → Action repo.Db (Commit AclPayload)
  grant_acl now entity id accessor expire_at =
      repo.create (id +++ accessor) (granted entity id accessor now (expiry now expire_at) ∷ [])

  unfoldable pub revoke_acl : ℕ → String → String → String → Action repo.Db (Commit AclPayload)
  revoke_acl now entity id accessor =
      repo.create (id +++ accessor) (revoked entity id accessor now ∷ [])

  unfoldable pub get_acl : (ℕ → ℕ) → String → String → repo.Db → Option Acl
  unfolding reduce_commits
  get_acl clock id accessor db =
      reduce_commits clock 0 none (or_empty (repo.get_commit_by_id (id +++ accessor) db))

  -- A promise of a resolver's command.
  abbrev commit_answer : Action repo.Db (Commit AclPayload) → Action repo.Db Answer
  commit_answer command db =
      let (r, db') = command db in (elim r [ ok c ↦ ok (committed c) | throw e ↦ throw e ], db')

  -- The resolvers of `_checkAccess`, `_grantAccess` and `_revokeAccess`. `number` is `Number` of a
  -- text that is a number.
  unfoldable pub check_access : (ℕ → ℕ) → String → String → repo.Db → Option Acl
  unfolding get_acl
  check_access = get_acl

  unfoldable pub grant_access :
      (String → Option ℕ)
      → Bool
      → ℕ
      → String
      → String
      → String
      → Option String
      → Action repo.Db Answer
  unfolding grant_acl
  grant_access number is_admin now entity id accessor expire_time db =
      if is_admin
      then commit_answer
          (grant_acl now entity id accessor
            (if truthy expire_time then number (text_of expire_time) else none))
          db
      else (ok (refused forbidden), db)

  unfoldable pub revoke_access : Bool → ℕ → String → String → String → Action repo.Db Answer
  unfolding revoke_acl
  revoke_access is_admin now entity id accessor db =
      if is_admin
      then commit_answer (revoke_acl now entity id accessor) db
      else (ok (refused forbidden), db)
