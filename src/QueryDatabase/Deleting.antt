-- ===== src/QueryDatabase/Deleting.antt =====
-- What the deletions of packages/fabric-cqrs/src/queryHandler/createQueryDatabase.ts leave, over a client
-- with the documented behaviour.
use text.Mathlib.TextPositions.{eq_refl}
use fabric_es.Prelude.{
  ℕ, ◌+◌, String, ◌≡◌, refl, ap, ◌∙◌, Bool, true, false, not, ◌==◌, ◌&&◌, Option, none, some, List,
  [], ◌∷◌, Dict, lookup, Result, ok, Error, all, any, is_some, length, arith, truthy, if◌then◌else◌,
}
use fabric_es.Prelude.Action.{Action}
use fabric_es.Redis.{Codec, Client}
use fabric_es.Redis.Keys.{
  Pattern, get_pattern, each, is_error, commits_by_entity_name_entity_id, commits_by_entity_name,
  entities_by_entity_name,
}
use fabric_es.Redis.Held.{Held, IsClient, nothing, held_commit, held_entity, held_text, is_held}
use fabric_es.Redis.Globs.{
  is_literal, has_prefix, commits_prefix, entities_prefix, entity_commits_prefix,
  get_pattern-commits, get_pattern-entities, get_pattern-entity_commits, commits_prefix-is_literal,
  entities_prefix-is_literal, entity_commits_prefix-is_literal,
}
use fabric_es.Redis.Selectors.{◌+++◌}
use fabric_es.Redis.Notification.{Response}
use fabric_es.Redis.Repository.{EntityRepo, delete_all, delete_items_by_pattern}
use fabric_es.QueryDatabase.{
  message_only, count_text, delete_items, delete_commit_by_entity_id, delete_commit_by_entity_name,
}
use fabric_es.QueryDatabase.Entities.{delete_entity_by_entity_name}
use fabric_es.QueryDatabase.Projection.{pipeline_keys-Up}

-- DEL answers with the number of keys that it has removed. In a database that has fewer keys than the
-- count of the scan (`Fits`), one SCAN finds for a literal prefix and a star the keys that hold
-- something and start with the prefix.
pub record IsDeleteClient {X : Type 0} {client : Client X} (laws : IsClient client) : Type 1 where
  pub Fits : client.Db → Type 0
  pub finds :
      (db : client.Db) (prefix j : String)
      → laws.Up db
      → Fits db
      → is_literal prefix ≡ true
      → any (λ k. k == j) (laws.keys db (prefix +++ "*"))
        ≡ is_held (laws.value db j) && has_prefix prefix j
  pub deletes :
      (db : client.Db) (k : String)
      → laws.Up db
      → (n : ℕ) × (db' : client.Db) × (client.del db k ≡ (none, n, db'))
        × laws.Up db'
        × ((j : String) → laws.value db' j ≡ (if k == j then nothing else laws.value db j))
        × (n ≡ (if is_held (laws.value db k) then 1 else 0))

found_held : (a b c : Bool) → c ≡ (a && b) → c ≡ true → a ≡ true
found_held a b c e h = ground arith

abbrev pub are_distinct : List String → Bool
are_distinct [] = true
are_distinct (k ∷ ks) = not (any (λ j. k == j) ks) && are_distinct ks

module _ {X : Type 0} {client : Client X} {laws : IsClient client}
    (deleting : IsDeleteClient laws) where
  open client use {Db}

  abbrev pub holds_all : Db → List String → Bool
  holds_all db ks = all (λ k. is_held (laws.value db k)) ks

  -- These keys hold nothing any more; all others hold what they held.
  abbrev pub AreDeleted : Db → List String → Db → Type 0
  AreDeleted db ks db' =
      (j : String) → laws.value db' j ≡ (if any (λ k. k == j) ks then nothing else laws.value db j)

  holds_all-deleted :
      (db db' : Db) (k : String) (ks : List String)
      → ((j : String) → laws.value db' j ≡ (if k == j then nothing else laws.value db j))
      → any (λ j. k == j) ks ≡ false
      → holds_all db ks ≡ true
      → holds_all db' ks ≡ true
  holds_all-deleted db db' k [] f a h = refl
  holds_all-deleted db db' k (i ∷ ks) f a h =
      let apart : (k == i) ≡ false = ground arith in
      let rest : holds_all db' ks ≡ true =
        holds_all-deleted db db' k ks f (ground arith) (ground arith) in
      let held : is_held (laws.value db i) ≡ true = ground arith in rw (f i, apart, held, rest) refl

  holds_all-any :
      (db : Db) (ks : List String)
      → ((j : String) → any (λ k. k == j) ks ≡ true → is_held (laws.value db j) ≡ true)
      → holds_all db ks ≡ true
  holds_all-any db [] h = refl
  holds_all-any db (k ∷ ks) h =
      let first : is_held (laws.value db k) ≡ true = h k (rw (eq_refl k) refl) in
      let rest : holds_all db ks ≡ true = holds_all-any db ks (λ j a. h j (ground arith)) in
      rw (first, rest) refl

  delete_all-Up :
      (ks : List String) (db : Db)
      → laws.Up db
      → (es : List (Option Error)) × (n : ℕ) × (db' : Db) × (delete_all client db ks ≡ (es, n, db'))
        × (any is_some es ≡ false)
        × laws.Up db'
        × AreDeleted db ks db'
        × (are_distinct ks ≡ true → holds_all db ks ≡ true → n ≡ length ks)
  unfolding delete_all
  delete_all-Up [] db u = ([], 0, db, refl, refl, u, λ j. refl, λ d h. refl)
  delete_all-Up (k ∷ ks) db u =
      let (n, mid, run, up, own, counted) = deleting.deletes db k u in
      let (es, m, last, ran, fine, up', gone, total) = delete_all-Up ks mid up in
      (
        none ∷ es,
        n + m,
        last,
        rw (run, ran) refl,
        fine,
        up',
        λ j. gone j ∙ rw (own j) (ground arith),
        λ d h.
            let held : is_held (laws.value db k) ≡ true = ground arith in
            let rest : m ≡ length ks =
              total (ground arith)
                (holds_all-deleted db mid k ks own (ground arith) (ground arith)) in
            rw (counted, held, rest) (omega arith),
      )

module _ {P D X : Type 0} {client : Client X} {laws : IsClient client}
    (deleting : IsDeleteClient laws) (codec : Codec P) (repos : Dict (EntityRepo P D X)) where
  open client use {Db}

  abbrev deleted : ℕ → Response ℕ
  deleted n =
      message_only "OK" (count_text client codec (some n) +++ " record(s) deleted") (some n) none

  abbrev answered : Option ℕ → Result (Response ℕ)
  answered n = ok (message_only "OK" (count_text client codec n +++ " record(s) deleted") n none)

  -- The deletion answers OK; the keys that start with the prefix hold nothing any more, all others
  -- hold what they held, and the number reported is that of the keys found, if these are distinct.
  abbrev pub Deletes : Action Db (Response ℕ) → String → Db → Type 0
  Deletes run prefix db =
      (n : ℕ) × (db' : Db) × (run db ≡ (ok (deleted n), db'))
      × laws.Up db'
      × ((j : String)
          → laws.value db' j ≡ (if has_prefix prefix j then nothing else laws.value db j))
      × (are_distinct (laws.keys db (prefix +++ "*")) ≡ true
          → n ≡ length (laws.keys db (prefix +++ "*")))

  swept :
      (v : Held X) (b : Bool) → (if is_held v && b then nothing else v) ≡ (if b then nothing else v)
  swept nothing true = refl
  swept nothing false = refl
  swept (held_commit r) b = refl
  swept (held_entity r) b = refl
  swept (held_text r) b = refl

  delete_items_by_pattern-Up :
      (pattern : String) (db db' : Db) (es : List (Option Error)) (n : ℕ)
      → laws.Up db
      → delete_all client db (laws.keys db pattern) ≡ (es, n, db')
      → delete_items_by_pattern client db pattern ≡ (each es, some n, db')
  unfolding delete_items_by_pattern
  delete_items_by_pattern-Up pattern db db' es n u run =
      rw (delete_items_by_pattern, pipeline_keys-Up laws codec db pattern u)
        (ap (λ r. (each r.0, some r.1, r.2)) run)

  delete_items-Deletes :
      (pattern : Pattern) (prefix : String) (db : Db)
      → get_pattern pattern ≡ prefix +++ "*"
      → is_literal prefix ≡ true
      → laws.Up db
      → deleting.Fits db
      → Deletes (delete_items client codec pattern) prefix db
  unfolding delete_items is_error
  delete_items-Deletes pattern prefix db p literal u fits =
      let ks = laws.keys db (prefix +++ "*") in
      let (es, n, db', run, fine, up, gone, counted) = delete_all-Up deleting ks db u in
      let e : delete_items_by_pattern client db (get_pattern pattern) ≡ (each es, some n, db') =
        ap (delete_items_by_pattern client db) p
        ∙ delete_items_by_pattern-Up (prefix +++ "*") db db' es n u run in
      (
        n,
        db',
        rw (delete_items, e) (rw fine (ap (λ r. (answered r.1, r.2)) e)),
        up,
        λ j.
            gone j
            ∙ rw (deleting.finds db prefix j u fits literal)
                (swept (laws.value db j) (has_prefix prefix j)),
        λ d. counted d (
            holds_all-any deleting db ks
              (λ j a. found_held _ _ _ (deleting.finds db prefix j u fits literal) a)),
      )

  -- While the server is up and has fewer keys than the count of the scan, let the name be non-empty
  -- and the name of a repository, the id be non-empty, and neither have characters that are special
  -- in a pattern. Then deleteCommitByEntityId, deleteCommitByEntityName and
  -- deleteEntityByEntityName each answer OK; the keys that start with c:name:id:, c:name: or
  -- e:name: hold nothing any more, no other key has changed, and, if the scan has found no key
  -- twice, the number reported is the number of the keys found.
  pub deletions-AreDeleted :
      (name id : String) (repo : EntityRepo P D X) (db : Db)
      → laws.Up db
      → deleting.Fits db
      → truthy (some name) ≡ true
      → truthy (some id) ≡ true
      → is_literal name ≡ true
      → is_literal id ≡ true
      → lookup name repos ≡ some repo
      → Deletes
          (delete_commit_by_entity_id client codec (some name) (some id))
          (entity_commits_prefix name id)
          db
        × Deletes (delete_commit_by_entity_name client codec (some name)) (commits_prefix name) db
        × Deletes
            (delete_entity_by_entity_name client codec repos (some name))
            (entities_prefix name)
            db
  unfolding delete_commit_by_entity_id delete_commit_by_entity_name delete_entity_by_entity_name
  deletions-AreDeleted name id repo db u fits ny iy nl il r = (
    rw (ny, iy)
        (delete_items-Deletes (commits_by_entity_name_entity_id name id)
          (entity_commits_prefix name id) db (get_pattern-entity_commits name id)
          (entity_commits_prefix-is_literal name nl id il) u fits),
    rw ny (
        delete_items-Deletes (commits_by_entity_name name) (commits_prefix name) db
          (get_pattern-commits name) (commits_prefix-is_literal name nl) u fits),
    rw (ny, r)
        (delete_items-Deletes (entities_by_entity_name name) (entities_prefix name) db
          (get_pattern-entities name) (entities_prefix-is_literal name nl) u fits),
  )
