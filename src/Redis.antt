-- ===== src/Redis.antt =====
-- The Redis client that packages/fabric-cqrs/src/queryHandler calls, as an interface: the client is
-- a third-party package. `X` is what an entity's own pre-selector writes.
pub mod Selectors
pub mod Keys
pub mod Order
pub mod Repository
pub mod Notification
pub mod Held
pub mod Globs
pub mod Laws
pub mod Flags
use fabric_es.Prelude.{ℕ, String, ◌≡◌, Option, some, List, Result, ok, Error, Dict, is_some}
use fabric_es.Types.{Event}

-- types/commitInRedis.ts
pub record CommitInRedis : Type 0 where
  pub id : Option String
  pub entity_name : Option String
  pub v : Option String
  pub commit_id : Option String
  pub entity_id : Option String
  pub msp_id : Option String
  pub event : Option String
  pub creator : Option String
  pub ts : Option String
  pub evstr : Option String
  pub signed_request : Option String

-- types/baseSelectors.ts: what every entity's hash has besides its own fields.
pub record EntityInRedis (X : Type 0) : Type 0 where
  pub own : X
  pub ts : Option ℕ
  pub created : Option ℕ
  pub creator : Option String
  pub organization : Option String
  pub private_data : Option String

pub data Hash (X : Type 0) : Type 0 where
  commit_hash : CommitInRedis → Hash X
  entity_hash : EntityInRedis X → Hash X

-- JSON and numbers as text. JSON keeps some events, `Keeps`: those in which it has a text for all
-- that is in them.
pub record Codec (P : Type 0) : Type 1 where
  pub stringify : List (Event P) → String
  pub parse : String → Option (List (Event P))
  pub Keeps : List (Event P) → Type 0
  pub parse-stringify : (es : List (Event P)) → Keeps es → parse (stringify es) ≡ some es
  pub stringify_organization : List (Option String) → String
  pub stringify_private_data : Dict (List (Option String)) → String
  pub show : ℕ → String
  pub parse_int : String → Option ℕ
  pub parse_int-show : (n : ℕ) → parse_int (show n) ≡ some n

-- The commands. A command of a pipeline answers with an error or a result of its own.
pub record Client (X : Type 0) : Type 1 where
  pub Db : Type 0
  pub ping : Db → Result String
  pub scan : Db → String → Option ℕ → Result (Option (List String))
  pub hmset : Db → String → Hash X → Result String × Db
  pub hgetall : Db → String → Option Error × Hash X
  pub del : Db → String → Option Error × ℕ × Db
  pub get : Db → String → Option Error × Option String
  pub set_ex : Db → String → String → ℕ → Result (Unit {0}) × Db
  pub getset : Db → String → String → Result (Option String) × Db
  pub del_key : Db → String → Result ℕ × Db
