-- ===== src/Examples/Access.antt =====
-- Access over a repository in memory.
use fabric_es.Prelude.{
  ℕ, String, ◌≡◌, ◌≢◌, refl, true, ◌==◌, none, some, List, [], ◌∷◌, ◌++◌, map, ok, arith, ==-ne,
  if◌then◌else◌,
}
use text.Mathlib.TextPositions.{eq_refl}
use fabric_es.Types.{Event, Commit}
use fabric_es.Domain.Acl.{
  Acl, AclPayload, AclRepo, committed, revoke_access, check_access, reduce_commits, get_acl,
}
use fabric_es.Domain.Acl.Decisions.{IsRevoked}
use fabric_es.Domain.Acl.Access.{IsAclRepo, OthersKeep, revoke_access-check_access}

abbrev Store : Type 0
Store = List (String × Commit AclPayload)

abbrev commits_of : Store → String → List (Commit AclPayload)
commits_of [] id = []
commits_of ((j, c) ∷ db) id = let rest = commits_of db id in if j == id then c ∷ rest else rest

abbrev commit_with : String → List (Event AclPayload) → Commit AclPayload
commit_with id es = record {
  id = some id;
  entity_name = some "loanDetails";
  version = some 0;
  commit_id = none;
  entity_id = some id;
  msp_id = none;
  events = some es;
  signed_request = none;
}

-- What a save makes of an event.
abbrev stamped : Event AclPayload → Event AclPayload
stamped e = record e {
  payload = record (e.payload) {
    creator = some "u1";
    created = some 5;
    ts = some 5;
    tag = some "acl";
  };
}

-- The answer to a save comes without the events.
abbrev answered : String → Commit AclPayload
answered id = record (commit_with id []) { events = none }

abbrev store : AclRepo
store = record {
  Db = Store;
  create = λ id es db. (ok (answered id), db ++ (id, commit_with id (map stamped es)) ∷ []);
  get_commit_by_id = λ id db. some (commits_of db id);
}

commits_of-own :
    (db : Store) (id : String) (c : Commit AclPayload)
    → commits_of (db ++ (id, c) ∷ []) id ≡ commits_of db id ++ c ∷ []
commits_of-own [] id c = rw (eq_refl id) refl
commits_of-own ((j, d) ∷ db) id c = ground (arith, commits_of-own db id c)

commits_of-others :
    (db : Store) (id j : String) (c : Commit AclPayload)
    → id ≢ j
    → commits_of (db ++ (id, c) ∷ []) j ≡ commits_of db j
commits_of-others [] id j c n = rw (==-ne id j n) refl
commits_of-others ((k, d) ∷ db) id j c n = ground (arith, commits_of-others db id j c n)

store_laws : IsAclRepo store
store_laws = record {
  commits = commits_of;
  Valid = λ db. Unit;
  Ready = λ db. Unit;
  found = λ id db v. refl;
  created = λ id e db v r. (
    answered id,
    commit_with id (stamped e ∷ []),
    stamped e,
    db ++ (id, commit_with id (stamped e ∷ [])) ∷ [],
    refl,
    tt,
    refl,
    refl,
    refl,
    commits_of-own db id (commit_with id (stamped e ∷ [])),
    λ j n. commits_of-others db id j (commit_with id (stamped e ∷ [])) n,
  );
}

abbrev clock : ℕ → ℕ
clock n = 50

revoke_access-check_access_example :
    (c : Commit AclPayload) × (db' : Store) × (a : Acl) × (revoke_access store true 20 "loanDetails"
        "L1" "Org2MSP" []
      ≡ (ok (committed c), db'))
    × Unit {0}
    × (check_access store clock "L1" "Org2MSP" db' ≡ some a)
    × IsRevoked 20 none a
    × OthersKeep store_laws clock [] db' "L1Org2MSP"
unfolding store_laws check_access get_acl reduce_commits
revoke_access-check_access_example =
    revoke_access-check_access store_laws clock 20 "loanDetails" "L1" "Org2MSP" [] tt tt
