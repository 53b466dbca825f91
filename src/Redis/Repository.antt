-- ===== src/Redis/Repository.antt =====
-- packages/fabric-cqrs/src/queryHandler/createRedisRepository.ts and pipelineExec.ts: keys,
-- patterns, and reading, writing and deleting by them.
use mathlib.Core.Option
use fabric_es.Prelude.{
  ℕ, String, Option, none, some, List, [], ◌∷◌, map, Result, ok, throw, Error, new_error, ◌+◌,
  if◌then◌else◌, ◌>>=◌,
}
use fabric_es.Types.{Commit}
use fabric_es.Reducer.{Entity}
use fabric_es.Redis.{CommitInRedis, EntityInRedis, Hash, commit_hash, entity_hash, Codec, Client}
use fabric_es.Redis.Keys.{Errors, caught, each, is_pong, commit_key, entity_key, sort_by_ts}
use fabric_es.Redis.Selectors.{OutputCommit, pre_selector, post_selector}

-- A commit restored from a key that holds no commit has no field.
abbrev pub no_commit : CommitInRedis
no_commit = record {
  id = none;
  entity_name = none;
  v = none;
  commit_id = none;
  entity_id = none;
  msp_id = none;
  event = none;
  creator = none;
  ts = none;
  evstr = none;
  signed_request = none;
}

module _ {X : Type 0} where
  abbrev pub as_commit : Hash X → CommitInRedis
  as_commit (commit_hash c) = c
  as_commit (entity_hash e) = no_commit

-- What `createRedisRepository` is given for an entity.
pub record EntityRepo (P D X : Type 0) : Type 0 where
  pub entity_name : String
  pub own_selector : Entity D → List (Commit P) → X

module _ {X : Type 0} (client : Client X) where
  open client use {Db}

  -- The checks of `pipelineExec`, and its keys: those that match the pattern.
  unfoldable pub pipeline_keys : Db → String → Result (List String)
  unfolding is_pong
  pipeline_keys db pattern = elim (client.ping db) [
    | throw e ↦ throw (new_error "fail to PING redis")
    | ok pong ↦
        if is_pong pong
        then (do
          found ← client.scan db pattern (some 100000)
          elim found [ none ↦ throw (new_error "keys not found") | some keys ↦ ok keys ])
        else throw (new_error "fail to PING redis")
  ]

  -- Action `HGETALL`, `DELETE` on the keys.
  unfoldable pub hgetall_all : Db → List String → List (Option Error × Hash X)
  hgetall_all db [] = []
  hgetall_all db (k ∷ ks) = client.hgetall db k ∷ hgetall_all db ks

  unfoldable pub delete_all : Db → List String → List (Option Error) × ℕ × Db
  delete_all db [] = ([], 0, db)
  delete_all db (k ∷ ks) =
      let (e, n, db') = client.del db k in
      let (es, total, last) = delete_all db' ks in (e ∷ es, n + total, last)

  unfoldable pub delete_items_by_pattern : Db → String → Errors × Option ℕ × Db
  unfolding pipeline_keys delete_all
  delete_items_by_pattern db pattern = elim (pipeline_keys db pattern) [
    | throw e ↦ (caught e, none, db)
    | ok keys ↦ let (es, total, last) = delete_all db keys in (each es, some total, last)
  ]

module _ {P X : Type 0} (client : Client X) (codec : Codec P) where
  open client use {Db}

  unfoldable pub restore : Option Error × Hash X → OutputCommit P
  unfolding post_selector
  restore (e, h) = post_selector codec (as_commit h)

  unfoldable pub query_commits_by_pattern : Db → String → Errors × Option (List (OutputCommit P))
  unfolding pipeline_keys hgetall_all restore sort_by_ts
  query_commits_by_pattern db pattern = elim (pipeline_keys client db pattern) [
    | throw e ↦ (caught e, none)
    | ok keys ↦
        let answers = hgetall_all client db keys in
        (
          each (map (λ (a : Option Error × Hash X). a.0) answers),
          some (sort_by_ts (map restore answers)),
        )
  ]

  unfoldable pub hmset_commit : Db → Commit P → Result String × Db
  unfolding commit_key pre_selector
  hmset_commit db c = elim (commit_key c) [
    | none ↦ (throw (new_error "invalid key"), db)
    | some key ↦ elim (pre_selector codec c) [
      | throw e ↦ (throw e, db)
      | ok r ↦ client.hmset db key (commit_hash r)
    ]
  ]

  module _ {D : Type 0} (repo : EntityRepo P D X) where
    unfoldable pub entity_selector : Entity D → List (Commit P) → EntityInRedis X
    entity_selector n history = record {
      own = repo.own_selector n history;
      ts = n.ts;
      created = n.created;
      creator = n.creator;
      organization = Option.map codec.stringify_organization n.organization;
      private_data = Option.map codec.stringify_private_data n.private_data;
    }

    unfoldable pub hmset_entity : Db → Entity D → List (Commit P) → Result String × Db
    unfolding entity_key entity_selector
    hmset_entity db n history = elim (entity_key repo.entity_name n.id) [
      | none ↦ (throw (new_error "invalid key"), db)
      | some key ↦ client.hmset db key (entity_hash (entity_selector n history))
    ]
