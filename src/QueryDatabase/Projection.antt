-- ===== src/QueryDatabase/Projection.antt =====
-- What `mergeEntity` of packages/fabric-cqrs/src/queryHandler/createQueryDatabase.ts makes of the
-- projection, over a client with the documented behaviour.
use mathlib.Core.List.{Permᴰ}
use fabric_es.Prelude.{
  String, ◌≡◌, refl, ap, ◌∙◌, true, false, Option, some, List, [], ◌∷◌, ok, is_some, any, map,
  Error, text_of,
}
use fabric_es.Types.{Commit}
use fabric_es.Reducer.{events_of}
use fabric_es.Redis.{Codec, Client}
use fabric_es.Redis.Held.{IsClient, held_commit, filled_commit}
use fabric_es.Redis.Keys.{each, commits_by_entity_name_entity_id, get_pattern}
use fabric_es.Redis.Order.{IsApart, IsSorted, sort_by_ts-Perm, map-Permᴰ}
use fabric_es.Redis.Laws.{as_read, commit_as_read, hash_of, post_selector-filled_commit}
use fabric_es.Redis.Repository.{pipeline_keys, hgetall_all, restore, query_commits_by_pattern}

module _ {P X : Type 0} {client : Client X} (laws : IsClient client) (codec : Codec P) where
  open client use {Db}

  pub pipeline_keys-Up :
      (db : Db) (pattern : String)
      → laws.Up db
      → pipeline_keys client db pattern ≡ ok (laws.keys db pattern)
  unfolding pipeline_keys
  pipeline_keys-Up db pattern u =
      rw (pipeline_keys, laws.pings db u) (rw (laws.scans db pattern u) refl)

  -- The keys hold what was written of these commits, in this order; JSON keeps their events.
  abbrev pub Holds : Db → List String → List (Commit P) → Type 0
  Holds db [] [] = Unit
  Holds db (k ∷ ks) (c ∷ cs) =
      (laws.value db k ≡ held_commit (filled_commit (hash_of codec c)))
      × (is_some c.events ≡ true)
      × (is_some c.version ≡ true)
      × codec.Keeps (events_of c.events)
      × Holds db ks cs
  Holds db _ _ = ⊥

  hgetall_all-Holds :
      (db : Db) (ks : List String) (cs : List (Commit P))
      → laws.Up db
      → Holds db ks cs
      → (any is_some (map (λ a. a.0) (hgetall_all client db ks)) ≡ false)
        × (map (restore client codec) (hgetall_all client db ks) ≡ map (as_read codec) cs)
  unfolding hgetall_all restore
  hgetall_all-Holds db [] [] u h = (refl, refl)
  hgetall_all-Holds db [] (c ∷ cs) u h = absurd h
  hgetall_all-Holds db (k ∷ ks) [] u h = absurd h
  hgetall_all-Holds db (k ∷ ks) (c ∷ cs) u (h, e, v, keeps, rest) =
      let (errors, found) = hgetall_all-Holds db ks cs u rest in
      rw (laws.reads db k (filled_commit (hash_of codec c)) u h) (
        errors,
        ap (λ o. o ∷ map (restore client codec) (hgetall_all client db ks))
              (post_selector-filled_commit codec c e v keeps)
            ∙ ap (λ os. as_read codec c ∷ os) found,
      )

  abbrev pub pattern_of : Commit P → String
  pattern_of c =
      get_pattern (commits_by_entity_name_entity_id (text_of c.entity_name) (text_of c.entity_id))

  -- The commits under the keys of the entity of `c` are those of `log`, found in any order; the times
  -- of the log do not decrease, and no two commits have the same time.
  pub record IsLog (db : Db) (c : Commit P) (log : List (Commit P)) : Type 0 where
    pub found : List (Commit P)
    pub held : Holds db (laws.keys db (pattern_of c)) found
    pub perm : Permᴰ found log
    pub apart : IsApart (map (as_read codec) found)
    pub sorted : IsSorted (map (as_read codec) log)

  -- While the server is up, the query for the commits of an entity that has a log answers without
  -- an error with the log, each commit with its own events and version and with the empty text for
  -- an absent field, in the order of its times, in whatever order the scan has found its keys.
  pub query_commits-IsLog :
      (db : Db) (c : Commit P) (log : List (Commit P))
      → laws.Up db
      → IsLog db c log
      → (es : List (Option Error)) × (query_commits_by_pattern client codec db (pattern_of c)
          ≡ (each es, some (map (as_read codec) log)))
        × (any is_some es ≡ false)
  unfolding query_commits_by_pattern
  query_commits-IsLog db c log u l =
      let ks = laws.keys db (pattern_of c) in
      let (errors, found) = hgetall_all-Holds db ks l.found u l.held in
      let ordered = sort_by_ts-Perm (map-Permᴰ (as_read codec) l.perm) l.apart l.sorted in
      (
        map (λ a. a.0) (hgetall_all client db ks),
        rw (query_commits_by_pattern, pipeline_keys-Up db (pattern_of c) u)
            (rw found (rw ordered refl)),
        errors,
      )

  pub map-as_read :
      (log : List (Commit P))
      → map (λ o. o.commit) (map (as_read codec) log) ≡ map (commit_as_read codec) log
  map-as_read [] = refl
  map-as_read (c ∷ log) = ap (λ cs. commit_as_read codec c ∷ cs) (map-as_read log)
