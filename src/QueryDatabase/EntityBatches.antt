-- ===== src/QueryDatabase/EntityBatches.antt =====
-- `mergeEntityBatch` of packages/fabric-cqrs/src/queryHandler/createQueryDatabase.ts, over a client with
-- the documented behaviour.
use mathlib.Core.List.{cons≢nil}
use fabric_es.Prelude.{
  String, ◌≡◌, ◌≢◌, refl, ap, sym, ◌∙◌, true, none, some, List, [], ◌∷◌, map, Dict, values, lookup,
  ok, truthy, length,
}
use fabric_es.Types.{Commit}
use fabric_es.Reducer.{Entity, Reducer, compute_entity}
use fabric_es.Redis.{Codec, Client, entity_hash}
use fabric_es.Redis.Keys.{entity_key}
use fabric_es.Redis.Held.{IsClient, held_entity, texts_of, takes_entity}
use fabric_es.Redis.Repository.{EntityRepo, entity_selector}
use fabric_es.Redis.Selectors.{◌+++◌}
use fabric_es.QueryDatabase.Merging.{hmset_entity-writes}
use fabric_es.QueryDatabase.Entities.{
  Written, Reduced, Merged, head_id, group_by_id, keep_state, reduce_batch, write_batch,
  merge_batch, merge_entity_batch,
}

-- An entity of the batch: its id, its commits, what they reduce to, and the key of that entity.
pub record Planned (P D : Type 0) : Type 0 where
  pub id : String
  pub log : List (Commit P)
  pub state : Entity D
  pub key : String

module _ {P D X : Type 0} {client : Client X} (laws : IsClient client) (codec : Codec P)
    (repo : EntityRepo P D X) (reducer : Reducer P D) where
  open client use {Db}

  abbrev pub groups : List (Planned P D) → Dict (List (Commit P))
  groups plan = map (λ (p : Planned P D). (p.id, p.log)) plan

  -- The commits reduce to the entity, which has that key.
  abbrev pub AreReducible : List (Planned P D) → Type 0
  AreReducible [] = Unit
  AreReducible (p ∷ ps) =
      (compute_entity p.log reducer ≡ ok (record { state = some p.state; reduced = true }))
      × (entity_key repo.entity_name p.state.id ≡ some p.key)
      × AreReducible ps

  abbrev pub AvoidsAll : String → List (Planned P D) → Type 0
  AvoidsAll k [] = Unit
  AvoidsAll k (p ∷ ps) = (p.key ≢ k) × AvoidsAll k ps

  abbrev pub AreApart : List (Planned P D) → Type 0
  AreApart [] = Unit
  AreApart (p ∷ ps) = AvoidsAll p.key ps × AreApart ps

  -- Each key holds its entity, with the history that it was reduced from.
  abbrev pub AreProjected : Db → List (Planned P D) → Type 0
  AreProjected db [] = Unit
  AreProjected db (p ∷ ps) =
      (laws.value db p.key
        ≡ held_entity (texts_of laws.writer (entity_selector client codec repo p.state p.log)))
      × AreProjected db ps

  -- The keys hold nothing, or other hashes of entities.
  abbrev pub TakeEntities : Db → List (Planned P D) → Type 0
  TakeEntities db [] = Unit
  TakeEntities db (p ∷ ps) = (takes_entity (laws.value db p.key) ≡ true) × TakeEntities db ps

  TakeEntities-frame :
      (db db' : Db) (k : String) (plan : List (Planned P D))
      → ((j : String) → k ≢ j → laws.value db' j ≡ laws.value db j)
      → AvoidsAll k plan
      → TakeEntities db plan
      → TakeEntities db' plan
  TakeEntities-frame db db' k [] f a h = tt
  TakeEntities-frame db db' k (p ∷ ps) f (n, a) (t, h) =
      (ap takes_entity (f p.key (λ e. n (sym e))) ∙ t, TakeEntities-frame db db' k ps f a h)

  abbrev entries : List (Planned P D) → List (Reduced P D)
  entries plan =
      map
        (λ (p : Planned P D). record {
          state = p.state;
          commits = p.log;
          key = entity_key repo.entity_name (head_id p.log);
        })
        plan

  -- What the answer lists: the key of each entity by the id of its first commit.
  abbrev pub listed : List (Planned P D) → List Written
  listed plan =
      map
        (λ (p : Planned P D). record {
          key = entity_key repo.entity_name (head_id p.log);
          status = "OK";
        })
        plan

  reduce_batch_lem :
      (plan : List (Planned P D))
      → AreReducible plan
      → reduce_batch reducer repo.entity_name (groups plan) ≡ ok (entries plan, [])
  unfolding reduce_batch keep_state
  reduce_batch_lem [] h = refl
  reduce_batch_lem (p ∷ ps) (r, k, h) = rw (reduce_batch, r) (rw (reduce_batch_lem ps h) refl)

  write_batch_lem :
      (repos : Dict (EntityRepo P D X)) (plan : List (Planned P D)) (db : Db)
      → laws.Up db
      → AreReducible plan
      → AreApart plan
      → TakeEntities db plan
      → (db' : Db) × (write_batch client codec repos repo (entries plan) db
          ≡ (ok (listed plan), db'))
        × laws.Up db'
        × AreProjected db' plan
        × ((j : String) → AvoidsAll j plan → laws.value db' j ≡ laws.value db j)
  unfolding write_batch
  write_batch_lem repos [] db u r a ts = (db, refl, u, tt, λ j n. refl)
  write_batch_lem repos (p ∷ ps) db u (r, k, rs) (n, a) (t, ts) =
      let (db1, w, u1, own, others) =
        laws.writes db p.key (entity_hash (entity_selector client codec repo p.state p.log)) u t in
      let (db2, run, u2, projected, frame) =
        write_batch_lem repos ps db1 u1 rs a (TakeEntities-frame db db1 p.key ps others n ts) in
      (
        db2,
        rw (write_batch, hmset_entity-writes laws codec repo db p.state p.log p.key k, w)
            (rw run refl),
        u2,
        (frame p.key n ∙ own, projected),
        λ j (m, ms). frame j ms ∙ others j m,
      )

  -- While the server is up, let a name with a repository be given, and let a plan list the groups
  -- of the batch by id; let each group reduce to an entity with a key, no two with one key, and
  -- each key hold nothing or an entity. Then mergeEntityBatch answers OK, lists for each group the
  -- key by the id of its first commit with the status OK, and reports no errors; each key holds the
  -- texts of its entity with that history, and no other key has changed.
  pub merge_entity_batch-AreProjected :
      (repos : Dict (EntityRepo P D X)) (name : String) (commits : Dict (Commit P))
      (plan : List (Planned P D)) (db : Db)
      → laws.Up db
      → truthy (some name) ≡ true
      → lookup name repos ≡ some repo
      → group_by_id (some name) (values commits) ≡ groups plan
      → AreReducible plan
      → AreApart plan
      → TakeEntities db plan
      → (m : Merged) × (db' : Db) × (merge_entity_batch client codec repos
            (some name)
            (some commits)
            (some reducer)
            db
          ≡ (ok m, db'))
        × (m.status ≡ "OK")
        × (m.written ≡ listed plan)
        × (m.errors ≡ none)
        × AreProjected db' plan
        × ((j : String) → AvoidsAll j plan → laws.value db' j ≡ laws.value db j)
  unfolding merge_entity_batch merge_batch group_by_id
  merge_entity_batch-AreProjected repos name [] [] db u t known e r a ts = (
    record { status = "OK"; message = "norecord exists"; written = []; errors = none },
    db,
    rw (merge_entity_batch, t, known) refl,
    refl,
    refl,
    refl,
    tt,
    λ j n. refl,
  )
  merge_entity_batch-AreProjected repos name [] (p ∷ ps) db u t known e r a ts =
      absurd (cons≢nil (sym e))
  merge_entity_batch-AreProjected repos name (c ∷ cs) plan db u t known e r a ts =
      let (db', run, u', projected, frame) = write_batch_lem repos plan db u r a ts in
      let reduced = ap (λ g. reduce_batch reducer repo.entity_name g) e ∙ reduce_batch_lem plan r in
      let m : Merged = record {
        status = "OK";
        message = codec.show (length (listed plan)) +++ " record(s) merged";
        written = listed plan;
        errors = none;
      } in
      (
        m,
        db',
        rw (merge_entity_batch, t, known) (rw (merge_batch, reduced) (rw run refl)),
        refl,
        refl,
        refl,
        projected,
        frame,
      )
