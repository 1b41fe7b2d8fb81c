-- ===== src/Dispatcher/Cache/Clients.antt =====
-- What the cache remembers, where redis does what it documents.
use waterbus_rs.Base.{◌≡◌, ◌∙◌, false, String, str_eq, eq_iff, none, some, ok, arith, if◌then◌else◌}
use waterbus_rs.Dispatcher.Cache.{
  ClientMetadata, Redis, Json, participant_key, insert_client, get_client, get_by_participant_id,
  remove_client,
}

-- A cluster that answers every command: it reads what was last written under a key, and nothing
-- where the key was deleted.
pub record IsHealthy (r : Redis) : Type 0 where
  pub connected : (c : r.Cluster) → r.get_connection c ≡ ok tt
  pub set_ok : (k v : String) (c : r.Cluster) → (r.set k v c).0 ≡ ok tt
  pub get_set :
      (k k' v : String) (c : r.Cluster)
      → r.get k' (r.set k v c).1 ≡ (if str_eq k k' then ok (some v) else r.get k' c)
  pub del_ok : (k : String) (c : r.Cluster) → (r.del k c).0 ≡ ok tt
  pub get_del :
      (k k' : String) (c : r.Cluster)
      → r.get k' (r.del k c).1 ≡ (if str_eq k k' then ok none else r.get k' c)

-- The metadata has a text, and is read back from it.
pub record IsRoundTrip (j : Json) (m : ClientMetadata) : Type 0 where
  pub text : String
  pub to_string_ok : j.to_string m ≡ ok text
  pub from_to : j.from_str text ≡ ok m

module _ (r : Redis) (j : Json) (h : IsHealthy r) where
  -- The cluster after `insert_client`.
  abbrev written : String → (m : ClientMetadata) → IsRoundTrip j m → r.Cluster → r.Cluster
  written key m t c = (r.set (participant_key m.participant_id) key (r.set key (t.text) c).1).1

  insert_client_lem :
      (key : String) (m : ClientMetadata) (t : IsRoundTrip j m) (c : r.Cluster)
      → insert_client r j key m c ≡ (ok tt, written key m t c)
  unfolding insert_client
  insert_client_lem key m t c = ground (
    arith,
    h.connected c,
    t.to_string_ok,
    h.set_ok key (t.text) c,
    h.set_ok (participant_key m.participant_id) key (r.set key (t.text) c).1,
  )

  get_client-some :
      (key : String) (m : ClientMetadata) (t : IsRoundTrip j m) (c : r.Cluster)
      → r.get key c ≡ ok (some (t.text))
      → get_client r j key c ≡ ok (some m)
  unfolding get_client
  get_client-some key m t c e = ground (arith, h.connected c, t.from_to)

  get_client-none :
      (key : String) (c : r.Cluster) → r.get key c ≡ ok none → get_client r j key c ≡ ok none
  unfolding get_client
  get_client-none key c e = ground (arith, h.connected c)

  participant_some :
      (id key : String) (c : r.Cluster)
      → r.get (participant_key id) c ≡ ok (some key)
      → get_by_participant_id r j id c ≡ get_client r j key c
  unfolding get_by_participant_id
  participant_some id key c e = ground (arith, h.connected c)

  participant_none :
      (id : String) (c : r.Cluster)
      → r.get (participant_key id) c ≡ ok none
      → get_by_participant_id r j id c ≡ ok none
  unfolding get_by_participant_id
  participant_none id c e = ground (arith, h.connected c)

  pub insert_client-found :
      (key : String) (m : ClientMetadata) (t : IsRoundTrip j m) (c : r.Cluster)
      → str_eq (participant_key m.participant_id) key ≡ false
      → (get_client r j key (insert_client r j key m c).1 ≡ ok (some m))
        × (get_by_participant_id r j m.participant_id (insert_client r j key m c).1 ≡ ok (some m))
  insert_client-found key m t c apart =
      let pk = participant_key m.participant_id in
      let c' = (r.set key (t.text) c).1 in
      let direct : get_client r j key (written key m t c) ≡ ok (some m) =
        get_client-some key m t (written key m t c)
          (ground (arith, h.get_set pk key key c', h.get_set key key (t.text) c, eq_iff key key)) in
      let secondary : r.get pk (written key m t c) ≡ ok (some key) =
        ground (arith, h.get_set pk pk key c', eq_iff pk pk) in
      rw (insert_client_lem key m t c)
        (direct, participant_some m.participant_id key (written key m t c) secondary ∙ direct)

  -- On a healthy cluster, a client that was inserted is found by its key and by its participant, and
  -- what is stored under any other key is as before. Its key is not that of a participant.
  pub inserted_client_found :
      (key other : String) (m : ClientMetadata) (t : IsRoundTrip j m) (c : r.Cluster)
      → str_eq (participant_key m.participant_id) key ≡ false
      → str_eq key other ≡ false
      → str_eq (participant_key m.participant_id) other ≡ false
      → ((insert_client r j key m c).0 ≡ ok tt)
        × (get_client r j key (insert_client r j key m c).1 ≡ ok (some m))
        × (get_by_participant_id r j m.participant_id (insert_client r j key m c).1 ≡ ok (some m))
        × (r.get other (insert_client r j key m c).1 ≡ r.get other c)
  inserted_client_found key other m t c apart differ differ' =
      let pk = participant_key m.participant_id in
      let c' = (r.set key (t.text) c).1 in
      let rest : r.get other (written key m t c) ≡ r.get other c =
        ground (arith, h.get_set pk other key c', h.get_set key other (t.text) c) in
      let found = insert_client-found key m t c apart in
      (rw (insert_client_lem key m t c), found.0, found.1, rw (insert_client_lem key m t c) rest)

  pub remove_client_lem :
      (key : String) (m : ClientMetadata) (c : r.Cluster)
      → get_client r j key c ≡ ok (some m)
      → remove_client r j key c ≡ r.del key (r.del (participant_key m.participant_id) c).1
  unfolding remove_client
  remove_client_lem key m c there =
      ground (arith, h.connected c, there, h.del_ok (participant_key m.participant_id) c)

  -- On a healthy cluster, a client that is there is found no more, by its key or by its participant,
  -- once it is removed.
  pub removed_client_gone :
      (key : String) (m : ClientMetadata) (c : r.Cluster)
      → get_client r j key c ≡ ok (some m)
      → ((remove_client r j key c).0 ≡ ok tt)
        × (get_client r j key (remove_client r j key c).1 ≡ ok none)
        × (get_by_participant_id r j m.participant_id (remove_client r j key c).1 ≡ ok none)
  removed_client_gone key m c there =
      let pk = participant_key m.participant_id in
      let c' = (r.del pk c).1 in
      rw (remove_client_lem key m c there) (
        h.del_ok key c',
        get_client-none key (r.del key c').1 (ground (arith, h.get_del key key c', eq_iff key key)),
        participant_none m.participant_id (r.del key c').1
            (ground (arith, h.get_del key pk c', h.get_del pk pk c, eq_iff pk pk)),
      )
