-- ===== src/Domain/Acl/Access.antt =====
-- Granting, revoking and checking access over a repository that keeps the commits of each id.
use fabric_es.Prelude.{
  ℕ, String, ◌≡◌, ◌≢◌, refl, ap, sym, ◌∙◌, true, Option, none, some, List, [], ◌∷◌, ◌++◌, length,
  ok,
}
use fabric_es.Types.{Event, Commit}
use fabric_es.Reducer.{or_empty}
use fabric_es.Reducer.Compute.{history_of}
use fabric_es.Redis.Selectors.{◌+++◌}
use fabric_es.Domain.Acl.{
  Acl, AclPayload, AclRepo, committed, revoked, reduce_commits, revoke_acl, get_acl, check_access,
  revoke_access, acl_reducer,
}
use fabric_es.Domain.Acl.Decisions.{IsRevoked, acl_reducer-IsRevoked, reduce_commits-last}

-- What the code relies on of the repository of private data: a valid database has a list of commits
-- for each id. A save of one event, when the repository is ready, appends a commit of that event,
-- on which the save may have set its creator, its times and its tag; what is answered need not be
-- that commit, since it comes without the events. Saving at version 0 again is no error for private
-- data.
pub record IsAclRepo (repo : AclRepo) : Type 1 where
  pub commits : repo.Db → String → List (Commit AclPayload)
  pub Valid : repo.Db → Type 0
  pub Ready : repo.Db → Type 0
  pub found :
      (id : String) (db : repo.Db)
      → Valid db
      → or_empty (repo.get_commit_by_id id db) ≡ commits db id
  pub created :
      (id : String) (e : Event AclPayload) (db : repo.Db)
      → Valid db
      → Ready db
      → (c : Commit AclPayload) × (saved : Commit AclPayload) × (f : Event AclPayload)
        × (db' : repo.Db) × (repo.create id (e ∷ []) db ≡ (ok c, db'))
        × Valid db'
        × (saved.events ≡ some (f ∷ []))
        × (f.type ≡ e.type)
        × (f.payload.body ≡ e.payload.body)
        × (commits db' id ≡ commits db id ++ saved ∷ [])
        × ((j : String) → id ≢ j → commits db' j ≡ commits db j)

-- The reducer reads neither the stamps nor the tag of an event.
acl_reducer-same :
    (now : ℕ) (acl : Option Acl) (e f : Event AclPayload)
    → f.type ≡ e.type
    → f.payload.body ≡ e.payload.body
    → acl_reducer now acl f ≡ acl_reducer now acl e
unfolding acl_reducer
acl_reducer-same now acl e f t b =
    ap
      (λ x.
        acl_reducer now acl
          (record e { type = x; payload = record (e.payload) { body = f.payload.body } }))
      t
    ∙ ap (λ x. acl_reducer now acl (record e { payload = record (e.payload) { body = x } })) b

module _ {repo : AclRepo} (laws : IsAclRepo repo) (clock : ℕ → ℕ) where
  -- The number of events that are reduced before a new one.
  abbrev pub events_of_access : repo.Db → String → String → ℕ
  events_of_access db id accessor = length (history_of (laws.commits db (id +++ accessor)))

  -- What any other pair of an entity and an accessor is told, unless the two ids run together to
  -- the same text.
  abbrev pub OthersKeep : repo.Db → repo.Db → String → Type 0
  OthersKeep db db' written =
      (id accessor : String)
      → written ≢ id +++ accessor
      → check_access repo clock id accessor db' ≡ check_access repo clock id accessor db

  check_access-found :
      (id accessor : String) (db : repo.Db)
      → laws.Valid db
      → check_access repo clock id accessor db
        ≡ reduce_commits clock 0 none (laws.commits db (id +++ accessor))
  unfolding check_access get_acl
  check_access-found id accessor db v =
      ap (λ cs. reduce_commits clock 0 none cs) (laws.found (id +++ accessor) db v)

  check_access-others :
      (db db' : repo.Db) (written : String)
      → laws.Valid db
      → laws.Valid db'
      → ((j : String) → written ≢ j → laws.commits db' j ≡ laws.commits db j)
      → OthersKeep db db' written
  check_access-others db db' written v v' frame id accessor n =
      check_access-found id accessor db' v'
      ∙ ap (λ cs. reduce_commits clock 0 none cs) (frame (id +++ accessor) n)
      ∙ sym (check_access-found id accessor db v)

  -- What is told after a commit of one event.
  check_access-created :
      (id accessor : String) (db db' : repo.Db) (c : Commit AclPayload) (e f : Event AclPayload)
      → laws.Valid db
      → laws.Valid db'
      → c.events ≡ some (f ∷ [])
      → f.type ≡ e.type
      → f.payload.body ≡ e.payload.body
      → laws.commits db' (id +++ accessor) ≡ laws.commits db (id +++ accessor) ++ c ∷ []
      → check_access repo clock id accessor db'
        ≡ acl_reducer
            (clock (events_of_access db id accessor))
            (check_access repo clock id accessor db)
            e
  check_access-created id accessor db db' c e f v v' h type body grown =
      check_access-found id accessor db' v'
      ∙ ap (λ cs. reduce_commits clock 0 none cs) grown
      ∙ reduce_commits-last clock (laws.commits db (id +++ accessor)) c f h
      ∙ acl_reducer-same (clock (events_of_access db id accessor)) _ e f type body
      ∙ ap (λ a. acl_reducer (clock (events_of_access db id accessor)) a e)
          (sym (check_access-found id accessor db v))

  -- Over a repository that keeps the commits of each id, in a valid and ready database, when an
  -- administrator revokes access to an entity: the mutation answers with the commit; checkAccess
  -- then gives an acl with the status revoked and the time of the revocation, with the creation and
  -- expiry times of what it gave before; and the answer of checkAccess is unchanged for every pair
  -- of an entity and an accessor whose ids do not run together to the same text.
  pub revoke_access-check_access :
      (now : ℕ) (entity id accessor : String) (db : repo.Db)
      → laws.Valid db
      → laws.Ready db
      → (c : Commit AclPayload) × (db' : repo.Db) × (a : Acl) × (revoke_access repo true now entity
            id accessor db
          ≡ (ok (committed c), db'))
        × laws.Valid db'
        × (check_access repo clock id accessor db' ≡ some a)
        × IsRevoked now (check_access repo clock id accessor db) a
        × OthersKeep db db' (id +++ accessor)
  unfolding revoke_access revoke_acl
  revoke_access-check_access now entity id accessor db v ready =
      let e = revoked entity id accessor now in
      let (c, saved, f, db', run, v', es, type, body, grown, frame) =
        laws.created (id +++ accessor) e db v ready in
      let (a, reduced, is_revoked) =
        acl_reducer-IsRevoked (clock (events_of_access db id accessor))
          (check_access repo clock id accessor db) entity id accessor now in
      (
        c,
        db',
        a,
        rw (revoke_access, run) refl,
        v',
        check_access-created id accessor db db' saved e f v v' es type body grown ∙ reduced,
        is_revoked,
        check_access-others db db' (id +++ accessor) v v' frame,
      )
