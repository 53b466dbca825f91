-- ===== src/QueryDatabase/Merging.antt =====
-- The writes of `mergeEntity` of packages/fabric-cqrs/src/queryHandler/createQueryDatabase.ts, over a
-- client with the documented behaviour: which keys hold what after a merge.
use fabric_es.Prelude.{
  ℕ, String, ◌≡◌, ◌≢◌, refl, ap, sym, ◌∙◌, true, false, Option, some, none, List, [], ◌∷◌, ◌++◌, ok,
  arith, is_some, map, truthy, text_of, lookup, Dict,
}
use fabric_es.Types.{Commit}
use fabric_es.Types.Guards.{is_commit}
use fabric_es.Reducer.{Entity, Reducer, compute_entity}
use fabric_es.Redis.{Codec, Client, commit_hash, entity_hash}
use fabric_es.Redis.Held.{
  IsClient, held_commit, held_entity, held_text, filled_commit, texts_of, takes_commit,
  takes_entity,
}
use fabric_es.Redis.Keys.{commit_key, entity_key}
use fabric_es.Redis.Laws.{as_read, commit_as_read, hash_of, hmset_commit-writes, keys_apart}
use fabric_es.Redis.Repository.{EntityRepo, hmset_entity, entity_selector}
use fabric_es.Redis.Notification.{Response, Fields, notify, notification_key}
use fabric_es.Redis.Selectors.{OutputCommit, ◌+++◌}
use fabric_es.QueryDatabase.{message_only, key_text}
use fabric_es.QueryDatabase.Entities.{
  Written, has_id, reduce_error, merge_entity, merge_valid, merge_queried, merge_history, write,
  write_entity,
}
use fabric_es.QueryDatabase.Projection.{IsLog, query_commits-IsLog, map-as_read}

module _ {P D X : Type 0} {client : Client X} (laws : IsClient client) (codec : Codec P)
    (repo : EntityRepo P D X) where
  open client use {Db}

  pub hmset_entity-writes :
      (db : Db) (n : Entity D) (log : List (Commit P)) (k : String)
      → entity_key repo.entity_name n.id ≡ some k
      → hmset_entity client codec repo db n log
        ≡ client.hmset db k (entity_hash (entity_selector client codec repo n log))
  unfolding hmset_entity
  hmset_entity-writes db n log k hk = rw (hmset_entity, hk) refl

  notify-sets :
      (db db' : Db) (f : Fields) (expiry : ℕ)
      → client.set_ex db (notification_key f) "1" expiry ≡ (ok tt, db')
      → notify client f expiry db
        ≡ (record { status = "OK"; message = none; result = none; errors = none }, db')
  unfolding notify
  notify-sets db db' f expiry h =
      let answer : Response (Unit {0}) = record {
        status = "OK";
        message = none;
        result = none;
        errors = none;
      } in
      rw (notify, h) (ap (λ s. (answer, s.1)) h)

  -- The flag that a merge sets.
  abbrev pub flag_of : Commit P → Entity D → Fields
  flag_of c n = record {
    creator = n.creator;
    entity_name = c.entity_name;
    id = c.entity_id;
    commit_id = c.commit_id;
  }

  -- The answer to a merge that wrote both.
  abbrev pub merged_answer : Commit P → Response (List Written)
  merged_answer c =
      let key = entity_key repo.entity_name c.id in
      message_only "OK" (key_text key +++ " merged successfully")
        (some
          (record { key = key; status = "OK" } ∷ record { key = commit_key c; status = "OK" } ∷ []))
        none

  -- The entity is stored under `e`, the commit under `k`, the notification is set as unread, and no
  -- other keys differ from before.
  pub record IsMerged (db db' : Db) (c : Commit P) (log : List (Commit P)) (n : Entity D)
      (e k : String) : Type 0 where
    pub up : laws.Up db'
    pub entity :
        laws.value db' e
        ≡ held_entity (texts_of laws.writer (entity_selector client codec repo n log))
    pub commit : laws.value db' k ≡ held_commit (filled_commit (hash_of codec c))
    pub flag : laws.value db' (notification_key (flag_of c n)) ≡ held_text "1"
    pub others :
        (j : String)
        → e ≢ j
        → k ≢ j
        → notification_key (flag_of c n) ≢ j
        → laws.value db' j ≡ laws.value db j

  module _ (repos : Dict (EntityRepo P D X)) where
    write_entity-IsMerged :
        (db : Db) (c : Commit P) (log : List (Commit P)) (n : Entity D) (e k : String)
        → laws.Up db
        → entity_key repo.entity_name n.id ≡ some e
        → commit_key c ≡ some k
        → is_some c.events ≡ true
        → is_some c.version ≡ true
        → takes_entity (laws.value db e) ≡ true
        → takes_commit (laws.value db k) ≡ true
        → (db' : Db) × (write_entity client codec repos repo c log n db
            ≡ (ok (merged_answer c), db'))
          × IsMerged db db' c log n e k
    unfolding write_entity
    write_entity-IsMerged db c log n e k u he hk es v te tk =
        let (ek, fe, fk) = keys_apart repo.entity_name n.id c (flag_of c n) e k he hk in
        let (db1, w1, u1, own1, others1) =
          laws.writes db e (entity_hash (entity_selector client codec repo n log)) u te in
        let free : takes_commit (laws.value db1 k) ≡ true = ap takes_commit (others1 k ek) ∙ tk in
        let (db2, w2, u2, own2, others2) =
          laws.writes db1 k (commit_hash (hash_of codec c)) u1 free in
        let (db3, w3, u3, set, others3) =
          laws.flags db2 (notification_key (flag_of c n)) "1" 86400 u2 refl in
        (
          db3,
          rw
              (
                write_entity,
                hmset_entity-writes db n log e he,
                w1,
                hmset_commit-writes client codec db1 c k hk es v,
                w2,
              )
              (ap (λ s. (ok (merged_answer c), s.1)) (notify-sets db2 db3 (flag_of c n) 86400 w3)),
          record {
            up = u3;
            entity = others3 e fe ∙ others2 e (λ h. ek (sym h)) ∙ own1;
            commit = others3 k fk ∙ own2;
            flag = set;
            others = λ j ej kj fj. others3 j fj ∙ others2 j kj ∙ others1 j ej;
          },
        )

    merge_history-write_entity :
        (reducer : Reducer P D) (db : Db) (c : Commit P) (os : List (OutputCommit P)) (n : Entity D)
        → truthy n.id ≡ true
        → compute_entity (map (λ o. o.commit) os ++ c ∷ []) reducer
          ≡ ok (record { state = some n; reduced = true })
        → merge_history client codec repos reducer repo c os db
          ≡ write_entity client codec repos repo c (map (λ o. o.commit) os ++ c ∷ []) n db
    unfolding merge_history write
    merge_history-write_entity reducer db c os n id r = rw (merge_history, r) (rw (write, id) refl)

    write-irreducible :
        (db : Db) (c : Commit P) (log : List (Commit P)) (s : Option (Entity D))
        → has_id s ≡ false
        → write client codec repos repo c log (record { state = s; reduced = true }) db
          ≡ (ok (reduce_error c), db)
    unfolding write
    write-irreducible db c log none f = refl
    write-irreducible db c log (some n) f = rw (write, f) refl

    merge_valid-IsMerged :
        (reducer : Reducer P D) (db : Db) (c : Commit P) (log : List (Commit P)) (n : Entity D)
        (e k : String)
        → laws.Up db
        → entity_key repo.entity_name n.id ≡ some e
        → commit_key c ≡ some k
        → is_some c.events ≡ true
        → is_some c.version ≡ true
        → takes_entity (laws.value db e) ≡ true
        → takes_commit (laws.value db k) ≡ true
        → IsLog laws codec db c log
        → compute_entity (map (commit_as_read codec) log ++ c ∷ []) reducer
          ≡ ok (record { state = some n; reduced = true })
        → (db' : Db) × (merge_valid client codec repos reducer repo c db
            ≡ (ok (merged_answer c), db'))
          × IsMerged db db' c (map (commit_as_read codec) log ++ c ∷ []) n e k
    unfolding merge_valid merge_queried entity_key
    merge_valid-IsMerged reducer db c log n e k u he hk es v te tk l r =
        let (errors, queried, none_failed) = query_commits-IsLog laws codec db c log u l in
        let (db', run, merged) =
          write_entity-IsMerged db c (map (commit_as_read codec) log ++ c ∷ []) n e k u he hk es v
            te tk in
        let id : truthy n.id ≡ true = ground arith in
        let same_log = map-as_read laws codec log in
        let reduced = ap (λ h. compute_entity (h ++ c ∷ []) reducer) same_log ∙ r in
        (
          db',
          rw (merge_valid, queried, merge_queried)
              (rw none_failed (
                merge_history-write_entity reducer db c (map (as_read codec) log) n id reduced
                ∙ ap (λ h. write_entity client codec repos repo c (h ++ c ∷ []) n db) same_log
                ∙ run)),
          merged,
        )

    -- While the server is up, let a commit have the fields that the type guard asks for, events and
    -- the parts of a key, let its entity have a repository and a log, let the log, as it is read
    -- back (an absent field is empty), followed by the commit reduce to an entity with a key, and
    -- let the keys of the entity and of the commit hold nothing or a hash of their kind. Then
    -- mergeEntity answers OK; the entity's key holds the texts of that entity with that history,
    -- the commit's key those of the commit, the key of the notification holds the flag of an unread
    -- one, and no other key has changed.
    pub merge_entity-IsMerged :
        (reducer : Reducer P D) (db : Db) (c : Commit P) (log : List (Commit P)) (n : Entity D)
        (e k : String)
        → laws.Up db
        → lookup (text_of c.entity_name) repos ≡ some repo
        → is_commit c ≡ true
        → is_some c.events ≡ true
        → commit_key c ≡ some k
        → IsLog laws codec db c log
        → compute_entity (map (commit_as_read codec) log ++ c ∷ []) reducer
          ≡ ok (record { state = some n; reduced = true })
        → entity_key repo.entity_name n.id ≡ some e
        → takes_entity (laws.value db e) ≡ true
        → takes_commit (laws.value db k) ≡ true
        → (db' : Db) × (merge_entity client codec repos c (some reducer) db
            ≡ (ok (merged_answer c), db'))
          × IsMerged db db' c (map (commit_as_read codec) log ++ c ∷ []) n e k
    unfolding merge_entity is_commit
    merge_entity-IsMerged reducer db c log n e k u known valid es hk l r he te tk =
        let v : is_some c.version ≡ true = ground arith in
        let (db', run, merged) =
          merge_valid-IsMerged reducer db c log n e k u he hk es v te tk l r in
        (db', rw (merge_entity, known) (rw valid run), merged)

    -- While the server is up, let a commit have the fields that the type guard asks for, and let
    -- its entity have a repository and a log. If the log, as it is read back, followed by the
    -- commit is reduced to nothing, or to an entity without an id, mergeEntity answers with an
    -- error that names the entity and the commit, and changes nothing.
    pub merge_entity-irreducible :
        (reducer : Reducer P D) (db : Db) (c : Commit P) (log : List (Commit P))
        (s : Option (Entity D))
        → laws.Up db
        → lookup (text_of c.entity_name) repos ≡ some repo
        → is_commit c ≡ true
        → IsLog laws codec db c log
        → compute_entity (map (commit_as_read codec) log ++ c ∷ []) reducer
          ≡ ok (record { state = s; reduced = true })
        → has_id s ≡ false
        → merge_entity client codec repos c (some reducer) db ≡ (ok (reduce_error c), db)
    unfolding merge_entity merge_valid merge_queried merge_history write
    merge_entity-irreducible reducer db c log s u known valid l r f =
        let (errors, queried, none_failed) = query_commits-IsLog laws codec db c log u l in
        let reduced =
          ap (λ h. compute_entity (h ++ c ∷ []) reducer) (map-as_read laws codec log) ∙ r in
        rw (merge_entity, known)
          (rw valid (
            rw (merge_valid, queried, merge_queried)
              (rw none_failed (rw (merge_history, reduced) (write-irreducible db c _ s f)))))
