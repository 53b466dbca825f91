-- ===== src/Redis/Held.antt =====
-- What a key of Redis holds, and what the code relies on of the client of
-- packages/fabric-cqrs/src/queryHandler: the client turns numbers into text and `undefined` into the
-- empty text when it writes, and commands on a key of another type fail.
use mathlib.Core.Option
use fabric_es.Prelude.{ℕ, String, ◌≡◌, ◌≢◌, Bool, true, false, Option, none, some, List, ok, ltb}
use fabric_es.Redis.{Client, Hash, commit_hash, entity_hash, CommitInRedis, EntityInRedis}

-- The fields of an entity's hash as they are held: text, empty where the field was undefined.
pub record EntityTexts (X : Type 0) : Type 0 where
  pub own : X
  pub ts : String
  pub created : String
  pub creator : String
  pub organization : String
  pub private_data : String

-- Hashes of commits and of entities, and the flag of a notification.
pub data Held (X : Type 0) : Type 0 where
  nothing : Held X
  held_commit : CommitInRedis → Held X
  held_entity : EntityTexts X → Held X
  held_text : String → Held X

-- The text of an undefined field is empty.
abbrev pub filled : Option String → Option String
filled none = some ""
filled (some s) = some s

abbrev pub shown : Option String → String
shown none = ""
shown (some s) = s

abbrev pub filled_commit : CommitInRedis → CommitInRedis
filled_commit r = record {
  id = filled r.id;
  entity_name = filled r.entity_name;
  v = filled r.v;
  commit_id = filled r.commit_id;
  entity_id = filled r.entity_id;
  msp_id = filled r.msp_id;
  event = filled r.event;
  creator = filled r.creator;
  ts = filled r.ts;
  evstr = filled r.evstr;
  signed_request = filled r.signed_request;
}

module _ {X : Type 0} where
  abbrev pub is_held : Held X → Bool
  is_held nothing = false
  is_held (held_commit r) = true
  is_held (held_entity r) = true
  is_held (held_text s) = true

  -- The keys to which HMSET may write a hash of a commit, or one of an entity: a key that holds a
  -- flag has another type.
  abbrev pub takes_commit : Held X → Bool
  takes_commit nothing = true
  takes_commit (held_commit r) = true
  takes_commit (held_entity r) = false
  takes_commit (held_text s) = false

  abbrev pub takes_entity : Held X → Bool
  takes_entity nothing = true
  takes_entity (held_commit r) = false
  takes_entity (held_entity r) = true
  takes_entity (held_text s) = false

  abbrev pub takes : Hash X → Held X → Bool
  takes (commit_hash r) v = takes_commit v
  takes (entity_hash r) v = takes_entity v

-- How the client writes what is not text: a number, and the own fields of an entity, of which those
-- that are undefined become empty too.
pub record Writer (X : Type 0) : Type 0 where
  pub number : ℕ → String
  pub own : X → X

module _ {X : Type 0} (w : Writer X) where
  -- What a key holds after a hash was written to it. All fields of the kind are written each time.
  abbrev pub texts_of : EntityInRedis X → EntityTexts X
  texts_of r = record {
    own = w.own r.own;
    ts = shown (Option.map w.number r.ts);
    created = shown (Option.map w.number r.created);
    creator = shown r.creator;
    organization = shown r.organization;
    private_data = shown r.private_data;
  }

  abbrev pub held : Hash X → Held X
  held (commit_hash r) = held_commit (filled_commit r)
  held (entity_hash r) = held_entity (texts_of r)

-- Ping, scan, the reads and writes of hashes, and SET with a time to live. `value` is what a key
-- holds while no time to live passes; `keys` is what one SCAN for a pattern with this count finds.
pub record IsClient {X : Type 0} (client : Client X) : Type 1 where
  pub value : client.Db → String → Held X
  pub writer : Writer X
  pub keys : client.Db → String → List String
  pub Up : client.Db → Type 0
  pub pings : (db : client.Db) → Up db → client.ping db ≡ ok "PONG"
  pub scans :
      (db : client.Db) (pattern : String)
      → Up db
      → client.scan db pattern (some 100000) ≡ ok (some (keys db pattern))
  pub reads :
      (db : client.Db) (k : String) (r : CommitInRedis)
      → Up db
      → value db k ≡ held_commit r
      → client.hgetall db k ≡ (none, commit_hash r)
  pub writes :
      (db : client.Db) (k : String) (h : Hash X)
      → Up db
      → takes h (value db k) ≡ true
      → (db' : client.Db) × (client.hmset db k h ≡ (ok "OK", db'))
        × Up db'
        × (value db' k ≡ held writer h)
        × ((j : String) → k ≢ j → value db' j ≡ value db j)
  pub flags :
      (db : client.Db) (k v : String) (n : ℕ)
      → Up db
      → ltb 0 n ≡ true
      → (db' : client.Db) × (client.set_ex db k v n ≡ (ok tt, db'))
        × Up db'
        × (value db' k ≡ held_text v)
        × ((j : String) → k ≢ j → value db' j ≡ value db j)
