-- ===== src/Dispatcher/Cache.antt =====
-- crates/dispatcher/src/infrastructure/cache/cache_manager.rs: what the dispatcher remembers of each
-- client. Redis and serde_json are parameters.
pub mod Clients
use Prim.Native.String.{◌++◌ as str_append}
use waterbus_rs.Base.{ℕ, ◌==◌, Bool, String, Option, none, some, Result, ok, err, ◌>>=◌, map_err}

pub record ClientMetadata : Type 0 where
  pub room_id : String
  pub participant_id : String
  pub sfu_node_id : String
  pub node_addr : String

-- The commands of crate `redis` that the code uses, on a cluster in some state.
pub record Redis : Type 1 where
  pub Cluster : Type 0
  pub RedisError : Type 0
  pub get_connection : Cluster → Result RedisError (Unit {0})
  pub set : String → String → Cluster → Result RedisError (Unit {0}) × Cluster
  pub get : String → Cluster → Result RedisError (Option String)
  pub del : String → Cluster → Result RedisError (Unit {0}) × Cluster
  pub exists : String → Cluster → Result RedisError ℕ
  pub type_error : RedisError

-- serde_json's `to_string` and `from_str` at `ClientMetadata`.
pub record Json : Type 1 where
  pub JsonError : Type 0
  pub to_string : ClientMetadata → Result JsonError String
  pub from_str : String → Result JsonError ClientMetadata

unfoldable pub participant_key : String → String
participant_key participant_id = str_append "participant_id:" participant_id

module _ (r : Redis) (j : Json) where
  -- A command that may fail, on the cluster: `?` keeps what was written before.
  abbrev Command : Type 0 → Type 0
  Command A = r.Cluster → Result r.RedisError A × r.Cluster

  abbrev and_then :
      {A B : Type 0}
      → Result r.RedisError A × r.Cluster
      → (A → Command B)
      → Result r.RedisError B × r.Cluster
  and_then (ok a, c) f = f a c
  and_then (err e, c) f = (err e, c)

  -- `CacheManager::insert`
  unfoldable pub insert_client : String → ClientMetadata → Command (Unit {0})
  insert_client key value c =
      and_then (r.get_connection c, c)
        λ _ c.
          and_then (map_err (j.to_string value) r.type_error, c)
            λ serialized c.
              and_then (r.set key serialized c)
                λ _ c. r.set (participant_key value.participant_id) key c

  unfoldable pub decode : Option String → Result r.RedisError (Option ClientMetadata)
  decode none = ok none
  decode (some s) = do metadata ← map_err (j.from_str s) r.type_error; ok (some metadata)

  -- `CacheManager::get`
  unfoldable pub get_client : String → r.Cluster → Result r.RedisError (Option ClientMetadata)
  unfolding decode
  get_client key c = r.get_connection c >>= λ _. r.get key c >>= decode

  follow : r.Cluster → Option String → Result r.RedisError (Option ClientMetadata)
  follow c none = ok none
  follow c (some actual_key) = get_client actual_key c

  -- `CacheManager::get_by_participant_id`
  unfoldable pub get_by_participant_id :
      String → r.Cluster → Result r.RedisError (Option ClientMetadata)
  unfolding follow
  get_by_participant_id participant_id c =
      r.get_connection c >>= λ _. r.get (participant_key participant_id) c >>= follow c

  -- The secondary key goes first, if the client is there.
  del_secondary : Option ClientMetadata → Command (Unit {0})
  del_secondary none c = (ok tt, c)
  del_secondary (some meta) c = r.del (participant_key meta.participant_id) c

  -- `CacheManager::remove`
  unfoldable pub remove_client : String → Command (Unit {0})
  unfolding del_secondary
  remove_client key c =
      and_then (r.get_connection c, c)
        λ _ c.
          and_then (get_client key c, c)
            λ meta c. and_then (del_secondary meta c) λ _ c. r.del key c

  -- `CacheManager::contains_key`
  unfoldable pub contains_key : String → r.Cluster → Result r.RedisError Bool
  contains_key key c = r.get_connection c >>= λ _. r.exists key c >>= λ n. ok (n == 1)
