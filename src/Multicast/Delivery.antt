-- ===== src/Multicast/Delivery.antt =====
-- What one `send` does to each receiver.
use waterbus_rs.Base.{
  String, Bool, true, false, Option, none, some, [], ◌∷◌, ◌≡◌, refl, arith, string_eq, eq_iff,
}
use waterbus_rs.Table.{get}
use waterbus_rs.Table.Keys.{IsMap, get-remove_all, remove_all-IsMap, mem_key}
use waterbus_rs.Multicast.{Channel, Sent, ok, full, disconnected, Senders, send_each, send}

module _ {Info : Type 0} (c : Channel Info) where
  -- A receiver whose channel is disconnected is dropped; any other keeps its sender as the attempt
  -- left it.
  abbrev kept : Sent × c.Sender → Option c.Sender
  kept (ok, s) = some s
  kept (full, s) = some s
  kept (disconnected, s) = none

  abbrev pub delivered : Info → Option c.Sender → Option c.Sender
  delivered info none = none
  delivered info (some s) = kept (c.try_send s info)

  get-send_each :
      (info : Info) (id : String) (m : Senders c)
      → get id (send_each c info m).0
        ≡ (elim (get id m) [ none ↦ none | some s ↦ some (c.try_send s info).1 ])
  unfolding get send_each
  get-send_each info id [] = refl
  get-send_each info id ((j, s) ∷ m) = ground (arith, get-send_each info id m)

  is_dead : Info → Option c.Sender → Bool
  is_dead info none = false
  is_dead info (some s) = elim (c.try_send s info).0 [
    | ok ↦ false
    | full ↦ false
    | disconnected ↦ true
  ]

  dead-send_each :
      (info : Info) (id : String) (m : Senders c)
      → IsMap m
      → mem_key id (send_each c info m).1 ≡ is_dead info (get id m)
  unfolding get send_each is_dead
  dead-send_each info id [] h = refl
  dead-send_each info id ((j, s) ∷ m) h = ground (arith, dead-send_each info id m h.1, eq_iff j id)

  -- In a map of senders with distinct ids, after `send` each receiver has exactly what its own
  -- channel made of the packet: it is gone if that was disconnected, and no other receiver is
  -- touched by it; an id that had no receiver has none.
  pub get-send :
      (info : Info) (id : String) (m : Senders c)
      → IsMap m
      → get id (send c info m) ≡ delivered info (get id m)
  unfolding send is_dead
  get-send info id m h = ground (
    arith,
    get-remove_all (send_each c info m).1 id (send_each c info m).0,
    get-send_each info id m,
    dead-send_each info id m h,
  )

  send_each-IsMap : (info : Info) (m : Senders c) → IsMap m → IsMap (send_each c info m).0
  unfolding send_each
  send_each-IsMap info [] h = tt
  send_each-IsMap info ((id, s) ∷ m) h =
      ground (arith, send_each-IsMap info m h.1, get-send_each info id m)

  pub send-IsMap : (info : Info) (m : Senders c) → IsMap m → IsMap (send c info m)
  unfolding send
  send-IsMap info m h =
      remove_all-IsMap (send_each c info m).1 (send_each c info m).0 (send_each-IsMap info m h)
