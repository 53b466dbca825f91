-- ===== src/Redis/Laws.antt =====
-- The round trip of a commit through its hash in Redis, and the keys, of which those of entities,
-- commits and notifications are apart.
use Prim.Native.Char.{code}
use Prim.Native.String.append as append
use fabric_es.Reducer.{events_of}
use fabric_es.Prelude.{
  ap, eqb, truthy, text_of, ◌&&◌, if◌then◌else◌, ℕ, String, ◌≡◌, ◌≢◌, refl, Bool, true, false,
  Option, some, none, List, [], ◌∷◌, ok, arith, is_some, foldl, some_of_is_some,
}
use fabric_es.Types.{Commit}
use fabric_es.Redis.Repository.{hmset_commit}
use fabric_es.Redis.Notification.{Fields, notification_key}
use fabric_es.Redis.{commit_hash, Codec, Client, CommitInRedis}
use fabric_es.Redis.Held.{filled, filled_commit}
use fabric_es.Redis.Selectors.{
  ◌+++◌, OutputCommit, pre_selector, post_selector, trim_commas, first_ts, first_creator,
  join_types, or_zero,
}
use fabric_es.Redis.Keys.{commit_key, entity_key}

module _ {P : Type 0} (codec : Codec P) where
  -- The hash of a commit that has events and a version.
  abbrev pub hash_of : Commit P → CommitInRedis
  hash_of c = record {
    id = c.id;
    entity_name = c.entity_name;
    v = some (codec.show (or_zero c.version));
    commit_id = c.commit_id;
    entity_id = c.entity_id;
    msp_id = c.msp_id;
    event = some (trim_commas (foldl join_types "" (events_of c.events)));
    creator = first_creator (events_of c.events);
    ts = some (codec.show (or_zero (first_ts (events_of c.events))));
    evstr = some (codec.stringify (events_of c.events));
    signed_request = c.signed_request;
  }

  -- The same commit, as it is read back.
  abbrev pub restored : Commit P → OutputCommit P
  restored c = record {
    commit = c;
    creator = first_creator (events_of c.events);
    event = some (trim_commas (foldl join_types "" (events_of c.events)));
    ts = some (or_zero (first_ts (events_of c.events)));
  }

  -- The same commit as it is read back from Redis, where a field without a value is empty.
  abbrev pub commit_as_read : Commit P → Commit P
  commit_as_read c = record c {
    id = filled c.id;
    entity_name = filled c.entity_name;
    commit_id = filled c.commit_id;
    entity_id = filled c.entity_id;
    msp_id = filled c.msp_id;
    signed_request = filled c.signed_request;
  }

  abbrev pub as_read : Commit P → OutputCommit P
  as_read c = record {
    commit = commit_as_read c;
    creator = filled (first_creator (events_of c.events));
    event = some (trim_commas (foldl join_types "" (events_of c.events)));
    ts = some (or_zero (first_ts (events_of c.events)));
  }

  pub post_selector-filled_commit :
      (c : Commit P)
      → is_some c.events ≡ true
      → is_some c.version ≡ true
      → codec.Keeps (events_of c.events)
      → post_selector codec (filled_commit (hash_of c)) ≡ as_read c
  unfolding post_selector
  post_selector-filled_commit c he hv keeps =
      let (es, e) = some_of_is_some c.events he in
      let (v, w) = some_of_is_some c.version hv in
      rw
        (
          codec.parse_int-show,
          codec.parse-stringify (events_of c.events) keeps,
          codec.parse_int-show,
        )
        (rw (e, w) refl)

  pub pre_selector-hash_of :
      (c : Commit P)
      → is_some c.events ≡ true
      → is_some c.version ≡ true
      → pre_selector codec c ≡ ok (hash_of c)
  unfolding pre_selector
  pre_selector-hash_of c he hv =
      let (es, e) = some_of_is_some c.events he in
      let (v, w) = some_of_is_some c.version hv in rw (e, w) refl

  pub post_selector-hash_of :
      (c : Commit P)
      → is_some c.events ≡ true
      → is_some c.version ≡ true
      → codec.Keeps (events_of c.events)
      → post_selector codec (hash_of c) ≡ restored c
  unfolding post_selector
  post_selector-hash_of c he hv keeps =
      let (es, e) = some_of_is_some c.events he in
      let (v, w) = some_of_is_some c.version hv in
      rw
        (
          codec.parse_int-show,
          codec.parse-stringify (events_of c.events) keeps,
          codec.parse_int-show,
        )
        (rw (e, w) refl)

  -- A commit that has a version and events that JSON keeps is written as a hash from which the same
  -- commit is read back, with the time and the creator of its first event.
  pub post_selector-pre_selector :
      (c : Commit P)
      → is_some c.events ≡ true
      → is_some c.version ≡ true
      → codec.Keeps (events_of c.events)
      → (r : CommitInRedis) × (pre_selector codec c ≡ ok r) × (post_selector codec r ≡ restored c)
  post_selector-pre_selector c he hv keeps =
      (hash_of c, pre_selector-hash_of c he hv, post_selector-hash_of c he hv keeps)

pub hmset_commit-writes :
    {P X : Type 0}
    → (client : Client X) (codec : Codec P) (db : client.Db) (c : Commit P) (k : String)
    → commit_key c ≡ some k
    → is_some c.events ≡ true
    → is_some c.version ≡ true
    → hmset_commit client codec db c ≡ client.hmset db k (commit_hash (hash_of codec c))
unfolding hmset_commit
hmset_commit-writes client codec db c k hk e v =
    rw (hmset_commit, hk) (rw (pre_selector-hash_of codec c e v) refl)

-- The keys of entities, commits and notifications are apart: they start with different letters.
abbrev starts : ℕ → String → Bool
starts n String.[] = false
starts n (String.◌∷◌ c s) = eqb (code c) n

starts-append : (n : ℕ) (s t : String) → starts n s ≡ true → starts n (s +++ t) ≡ true
starts-append n String.[] t h = cc
starts-append n (String.◌∷◌ c s) t h = rw append.cons h

starts-differ : (m n : ℕ) (t : String) → eqb m n ≡ false → starts m t ≡ true → starts n t ≡ true → ⊥
starts-differ m n String.[] d a b = cc
starts-differ m n (String.◌∷◌ c s) d a b = ground arith

starts-ne :
    (m n : ℕ) (s t : String) → eqb m n ≡ false → starts m s ≡ true → starts n t ≡ true → s ≢ t
starts-ne m n s t d a b e = let f : starts m t ≡ true = rw (← e) a in starts-differ m n t d f b

starts-foldl :
    (n : ℕ) (s : String) (ts : List String)
    → starts n s ≡ true
    → starts n (foldl (λ s t. s +++ t) s ts) ≡ true
starts-foldl n s [] h = h
starts-foldl n s (t ∷ ts) h = starts-foldl n (s +++ t) ts (starts-append n s t h)

starts-some :
    (n : ℕ) (b : Bool) (s k : String)
    → starts n s ≡ true
    → (if b then some s else none) ≡ some k
    → starts n k ≡ true
starts-some n true s k h e = rw (← ap text_of e) h
starts-some n false s k h e = cc

entity_key-starts :
    (name : String) (id : Option String) (k : String)
    → entity_key name id ≡ some k
    → starts b'e' k ≡ true
unfolding entity_key
entity_key-starts name id k h =
    starts-some b'e' (truthy id) _ k (starts-foldl b'e' "e:" (name ∷ ":" ∷ text_of id ∷ []) refl) h

commit_key-starts :
    {P : Type 0} → (c : Commit P) (k : String) → commit_key c ≡ some k → starts b'c' k ≡ true
unfolding commit_key
commit_key-starts c k h =
    let parts =
      text_of c.entity_name ∷ ":" ∷ text_of c.entity_id ∷ ":" ∷ text_of c.commit_id ∷ [] in
    starts-some b'c' (truthy c.entity_name && (truthy c.entity_id && truthy c.commit_id)) _ k
      (starts-foldl b'c' "c:" parts refl) h

notification_key-starts : (f : Fields) → starts b'n' (notification_key f) ≡ true
unfolding notification_key
notification_key-starts f =
    let parts =
      text_of f.creator
      ∷ ":"
      ∷ text_of f.entity_name
      ∷ ":"
      ∷ text_of f.id
      ∷ ":"
      ∷ text_of f.commit_id
      ∷ [] in
    starts-foldl b'n' "n:" parts refl

module _ {P : Type 0} (name : String) (id : Option String) (c : Commit P) (f : Fields)
    (e k : String) (he : entity_key name id ≡ some e) (hk : commit_key c ≡ some k) where
  pub keys_apart : (e ≢ k) × (notification_key f ≢ e) × (notification_key f ≢ k)
  keys_apart =
      let a = entity_key-starts name id e he in
      let b = commit_key-starts c k hk in
      let n = notification_key-starts f in
      (
        starts-ne b'e' b'c' e k refl a b,
        starts-ne b'n' b'e' _ e refl n a,
        starts-ne b'n' b'c' _ k refl n b,
      )
