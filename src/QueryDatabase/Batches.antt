-- ===== src/QueryDatabase/Batches.antt =====
-- `mergeCommitBatch` of packages/fabric-cqrs/src/queryHandler/createQueryDatabase.ts, over a client with
-- the documented behaviour.
use fabric_es.Prelude.{
  String, ◌≡◌, ◌≢◌, refl, ap, sym, ◌∙◌, true, some, List, [], ◌∷◌, Dict, values, ok, is_some, map,
  truthy, length,
}
use mathlib.Core.List.{cons≢nil}
use fabric_es.Types.{Commit}
use fabric_es.Redis.{Codec, Client, commit_hash}
use fabric_es.Redis.Held.{IsClient, held_commit, filled_commit, takes_commit}
use fabric_es.Redis.Keys.{commit_key}
use fabric_es.Redis.Laws.{hash_of, hmset_commit-writes}
use fabric_es.Redis.Selectors.{◌+++◌}
use fabric_es.QueryDatabase.{Batch, merge_all, merge_some, merge_commit_batch}

module _ {P X : Type 0} {client : Client X} (laws : IsClient client) (codec : Codec P) where
  open client use {Db}

  -- The commit has a key, events and a version, and is to be stored under that key.
  abbrev pub IsStorable : String × Commit P → Type 0
  IsStorable (k, c) =
      (commit_key c ≡ some k) × (is_some c.events ≡ true) × (is_some c.version ≡ true)

  abbrev pub Avoids : String → List (String × Commit P) → Type 0
  Avoids k [] = Unit
  Avoids k ((j, c) ∷ cs) = (j ≢ k) × Avoids k cs

  -- All commits can be stored, and no two under one key.
  abbrev pub AreStorable : List (String × Commit P) → Type 0
  AreStorable [] = Unit
  AreStorable ((k, c) ∷ cs) = IsStorable (k, c) × Avoids k cs × AreStorable cs

  -- The keys hold nothing, or other hashes of commits.
  abbrev pub TakeCommits : Db → List (String × Commit P) → Type 0
  TakeCommits db [] = Unit
  TakeCommits db ((k, c) ∷ cs) = (takes_commit (laws.value db k) ≡ true) × TakeCommits db cs

  -- Each key holds what is written of its commit.
  abbrev pub AreStored : Db → List (String × Commit P) → Type 0
  AreStored db [] = Unit
  AreStored db ((k, c) ∷ cs) =
      (laws.value db k ≡ held_commit (filled_commit (hash_of codec c))) × AreStored db cs

  TakeCommits-frame :
      (db db' : Db) (k : String) (cs : List (String × Commit P))
      → ((j : String) → k ≢ j → laws.value db' j ≡ laws.value db j)
      → Avoids k cs
      → TakeCommits db cs
      → TakeCommits db' cs
  TakeCommits-frame db db' k [] f a h = tt
  TakeCommits-frame db db' k ((j, c) ∷ cs) f (n, a) (t, h) =
      (ap takes_commit (f j (λ e. n (sym e))) ∙ t, TakeCommits-frame db db' k cs f a h)

  merge_all_lem :
      (cs : List (String × Commit P)) (db : Db)
      → laws.Up db
      → AreStorable cs
      → TakeCommits db cs
      → (db' : Db) × (merge_all client codec (values cs) db
          ≡ (ok (map (λ e. some e.0) cs, []), db'))
        × laws.Up db'
        × AreStored db' cs
        × ((j : String) → Avoids j cs → laws.value db' j ≡ laws.value db j)
  unfolding merge_all
  merge_all_lem [] db u s ts = (db, refl, u, tt, λ j a. refl)
  merge_all_lem ((k, c) ∷ cs) db u (s, a, ss) (t, ts) =
      let (db1, w, u1, own, others) = laws.writes db k (commit_hash (hash_of codec c)) u t in
      let (db2, run, u2, stored, frame) =
        merge_all_lem cs db1 u1 ss (TakeCommits-frame db db1 k cs others a ts) in
      (
        db2,
        rw (merge_all, hmset_commit-writes client codec db c k s.0 s.1 s.2, w)
            (rw run (rw (s.0) refl)),
        u2,
        (frame k a ∙ own, stored),
        λ j (n, m). frame j m ∙ others j n,
      )

  -- While the server is up, let a name be given, and let a plan list the commits of the batch, each
  -- with its key; let all commits have events and a version, no two the same key, and each key hold
  -- nothing or a commit. Then mergeCommitBatch answers OK with the keys of the plan and no
  -- failures, each key then holds the texts of its commit, no other key has changed, and the server
  -- is still up.
  pub merge_commit_batch-AreStored :
      (name : String) (commits plan : Dict (Commit P)) (db : Db)
      → laws.Up db
      → truthy (some name) ≡ true
      → values plan ≡ values commits
      → AreStorable plan
      → TakeCommits db plan
      → (b : Batch) × (db' : Db) × (merge_commit_batch client codec (some name) (some commits) db
          ≡ (ok b, db'))
        × laws.Up db'
        × (b.status ≡ "OK")
        × (b.keys ≡ map (λ e. some e.0) plan)
        × (b.failures ≡ [])
        × AreStored db' plan
        × ((j : String) → Avoids j plan → laws.value db' j ≡ laws.value db j)
  unfolding merge_commit_batch merge_some
  merge_commit_batch-AreStored name [] [] db u t e s ts = (
    record { status = "OK"; message = "norecord exists"; keys = []; failures = [] },
    db,
    rw t refl,
    u,
    refl,
    refl,
    refl,
    tt,
    λ j a. refl,
  )
  merge_commit_batch-AreStored name [] (p ∷ ps) db u t e s ts = absurd (cons≢nil e)
  merge_commit_batch-AreStored name (c ∷ cs) plan db u t e s ts =
      let (db', run, u', stored, frame) = merge_all_lem plan db u s ts in
      let same_run : merge_all client codec (values (c ∷ cs)) db
          ≡ (ok (map (λ e. some e.0) plan, []), db') =
        ap (λ l. merge_all client codec l db) (sym e) ∙ run in
      let b : Batch = record {
        status = "OK";
        message =
            codec.show (length (map (λ e. some e.0) plan)) +++ " record(s) merged successfully";
        keys = map (λ e. some e.0) plan;
        failures = [];
      } in
      (b, db', rw t (rw (merge_some, same_run) refl), u', refl, refl, refl, stored, frame)
