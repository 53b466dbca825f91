-- ===== src/Examples/Memory.antt =====
-- A Redis server in memory, whose keys hold hashes or texts: a command on a key of another type fails,
-- and so does a time to live of zero.
use Prim.Native.Char.{code}
use Prim.Native.String.append as append
use text.Mathlib.TextPositions.{eq_refl}
use fabric_es.Prelude.{
  ℕ, zero, suc, String, ◌≡◌, refl, ap, ◌∙◌, Bool, true, false, Option, none, some, List, [], ◌∷◌,
  ok, throw, Result, Error, new_error, Dict, lookup, assign, lookup-assign, ==-ne, select, ◌==◌,
  map, arith, ltb, eq_iff, if◌then◌else◌, ◌≢◌, ◌&&◌, eqb, any, Bool-cases, inl, inr,
}
use fabric_es.Redis.{Client, Hash, commit_hash, entity_hash}
use fabric_es.Redis.Held.{
  Held, nothing, held_commit, held_entity, held_text, Writer, IsClient, takes, held, is_held,
}
use fabric_es.Redis.Globs.{is_literal, has_prefix}
use fabric_es.Redis.Selectors.{◌+++◌}
use fabric_es.QueryDatabase.Deleting.{IsDeleteClient}
use fabric_es.Redis.Flags.{IsFlagClient}
use fabric_es.Redis.Repository.{no_commit}

abbrev pub Server : Type 0
Server = Dict (Held String)

-- Numbers as tallies.
abbrev pub tally : ℕ → String
tally zero = ""
tally (suc n) = String.◌∷◌ "1" (tally n)

abbrev writer : Writer String
writer = record { number = tally; own = λ x. x }

abbrev or_nothing : Option (Held String) → Held String
or_nothing none = nothing
or_nothing (some v) = v

abbrev pub value : Server → String → Held String
value db k = or_nothing (lookup k db)

abbrev wrong_type : Error
wrong_type = new_error "WRONGTYPE Operation against a key holding the wrong kind of value"

-- A dictionary without a key.
abbrev pub without : {A : Type 0} → String → Dict A → Dict A
without k [] = []
without k ((j, v) ∷ d) = let rest = without k d in if j == k then rest else (j, v) ∷ rest

pub lookup-without :
    {A : Type 0} (k j : String) (d : Dict A)
    → lookup j (without k d) ≡ (if k == j then none else lookup j d)
unfolding lookup
lookup-without k j [] = ground arith
lookup-without k j ((i, v) ∷ d) =
    ground (arith, eq_iff k j, eq_iff i k, eq_iff i j, lookup-without k j d)

-- The numbers of an entity's hash are not read back.
abbrev hash_of_value : Held String → Option Error × Hash String
hash_of_value nothing = (none, commit_hash no_commit)
hash_of_value (held_commit r) = (none, commit_hash r)
hash_of_value (held_entity r) = (
  none,
  entity_hash (record {
    own = r.own;
    ts = none;
    created = none;
    creator = some r.creator;
    organization = some r.organization;
    private_data = some r.private_data;
  }),
)
hash_of_value (held_text s) = (some wrong_type, commit_hash no_commit)

abbrev text_of_value : Held String → Option Error × Option String
text_of_value nothing = (none, none)
text_of_value (held_text s) = (none, some s)
text_of_value (held_commit r) = (some wrong_type, none)
text_of_value (held_entity r) = (some wrong_type, none)

abbrev exchange : Held String → String → String → Server → Result (Option String) × Server
exchange nothing k v db = (ok none, assign k (held_text v) db)
exchange (held_text s) k v db = (ok (some s), assign k (held_text v) db)
exchange (held_commit r) k v db = (throw wrong_type, db)
exchange (held_entity r) k v db = (throw wrong_type, db)

-- The patterns that are used end with a star.
abbrev matches : String → String → Bool
matches String.[] String.[] = true
matches String.[] (String.◌∷◌ c s) = false
matches (String.◌∷◌ p ps) String.[] = eqb (code p) b'*'
matches (String.◌∷◌ p ps) (String.◌∷◌ c s) =
    let rest = matches ps s in if eqb (code p) b'*' then true else eqb (code p) (code c) && rest

abbrev names : Server → List String
names db = map (λ (e : String × Held String). e.0) db

abbrev keys : Server → String → List String
keys db pattern = select (λ k. is_held (value db k) && matches pattern k) (names db)

abbrev pub memory : Client String
memory = record {
  Db = Server;
  ping = λ db. ok "PONG";
  scan = λ db pattern count. ok (some (keys db pattern));
  hmset = λ db k h.
      if takes h (value db k)
      then (ok "OK", assign k (held writer h) db)
      else (throw wrong_type, db);
  hgetall = λ db k. hash_of_value (value db k);
  del = λ db k. (none, if is_held (value db k) then 1 else 0, without k db);
  get = λ db k. text_of_value (value db k);
  set_ex =
      λ db k v n. if ltb 0 n then (ok tt, assign k (held_text v) db) else (throw wrong_type, db);
  getset = λ db k v. exchange (value db k) k v db;
  del_key = λ db k. (ok (if is_held (value db k) then 1 else 0), without k db);
}

pub value-assign : (k : String) (v : Held String) (db : Server) → value (assign k v db) k ≡ v
value-assign k v db = rw (lookup-assign, eq_refl) refl

pub value-assign_other :
    (k : String) (v : Held String) (db : Server) (j : String)
    → k ≢ j
    → value (assign k v db) j ≡ value db j
value-assign_other k v db j ne = rw (lookup-assign, ==-ne k j ne) refl

or_nothing-if :
    (b : Bool) (o : Option (Held String))
    → or_nothing (if b then none else o) ≡ (if b then nothing else or_nothing o)
or_nothing-if true o = refl
or_nothing-if false o = refl

abbrev pub memory_laws : IsClient memory
memory_laws = record {
  value = value;
  writer = writer;
  keys = keys;
  Up = λ db. Unit;
  pings = λ db u. refl;
  scans = λ db pattern u. refl;
  reads = λ db k r u e. rw e refl;
  writes = λ db k h u t. (
    assign k (held writer h) db,
    rw t refl,
    tt,
    value-assign k (held writer h) db,
    value-assign_other k (held writer h) db,
  );
  flags = λ db k v n u t. (
    assign k (held_text v) db,
    rw t refl,
    tt,
    value-assign k (held_text v) db,
    value-assign_other k (held_text v) db,
  );
}

pub value-without :
    (k j : String) (db : Server) → value (without k db) j ≡ (if k == j then nothing else value db j)
value-without k j db = ap or_nothing (lookup-without k j db) ∙ or_nothing-if (k == j) (lookup j db)

any-select :
    (f : String → Bool) (j : String) (ks : List String)
    → any (λ k. k == j) (select f ks) ≡ any (λ k. k == j) ks && f j
any-select f j [] = refl
any-select f j (k ∷ ks) = elim (Bool-cases (k == j)) [
  | inl y ↦ rw ((eq_iff k j).0 y) (ground (arith, any-select f j ks, eq_refl j))
  | inr n ↦ ground (arith, any-select f j ks)
]

any-names :
    (j : String) (db : Server) → is_held (value db j) ≡ true → any (λ k. k == j) (names db) ≡ true
unfolding lookup
any-names j [] h = cc
any-names j ((k, v) ∷ db) h = ground (arith, any-names j db)

matches-has_prefix :
    (prefix k : String)
    → is_literal prefix ≡ true
    → matches (prefix +++ "*") k ≡ has_prefix prefix k
matches-has_prefix String.[] String.[] h = refl
matches-has_prefix String.[] (String.◌∷◌ c s) h = refl
matches-has_prefix (String.◌∷◌ p ps) String.[] h = rw append.cons (ground arith)
matches-has_prefix (String.◌∷◌ p ps) (String.◌∷◌ c s) h =
    let rest = matches-has_prefix ps s (ground arith) in rw append.cons (ground arith)

pub keys-has_prefix :
    (db : Server) (prefix j : String)
    → is_literal prefix ≡ true
    → any (λ k. k == j) (keys db (prefix +++ "*")) ≡ is_held (value db j) && has_prefix prefix j
keys-has_prefix db prefix j h =
    any-select (λ k. is_held (value db k) && matches (prefix +++ "*") k) j (names db)
    ∙ rw (matches-has_prefix prefix j h) (ground (arith, any-names j db))

abbrev pub memory_deletes : IsDeleteClient memory_laws
memory_deletes = record {
  Fits = λ db. Unit;
  finds = λ db prefix j u fits h. keys-has_prefix db prefix j h;
  deletes = λ db k u. (
    if is_held (value db k) then 1 else 0,
    without k db,
    refl,
    tt,
    λ j. value-without k j db,
    refl,
  );
}

abbrev pub memory_flags : IsFlagClient memory_laws
memory_flags = record {
  swaps = λ db k v old u h. (
    assign k (held_text v) db,
    ap (λ x. exchange x k v db) h,
    tt,
    value-assign k (held_text v) db,
    value-assign_other k (held_text v) db,
  );
  deletes = λ db k u. (
    if is_held (value db k) then 1 else 0,
    without k db,
    refl,
    tt,
    value-without k k db ∙ rw (eq_refl k) refl,
    λ j ne. value-without k j db ∙ rw (==-ne k j ne) refl,
  );
}
