-- ===== src/Server/Drain.antt =====
-- The server comes to rest: from every state it reaches, its operations can end so that every
-- session goes and every mailbox is free.
use simple_pop3serv.Base.{◌≡◌, List, ◌∷◌}
use simple_pop3serv.Protocol.Boost.{Boost, BoostLaws}
use simple_pop3serv.Service.Connect.{World, Settings}
use simple_pop3serv.Server.{Node, System}
use simple_pop3serv.Server.Plain.{PlainReach}
use simple_pop3serv.Server.Safety.{Removes}

module _ {boost : Boost} (laws : BoostLaws boost) (settings : Settings) (world : World) where
  -- A state that the server reaches, whose first object satisfies P.
  abbrev Begins : (Node → Type 0) → List Node → Type 0
  Begins P ns =
      (y : System) × (n : Node) × PlainReach boost settings world y
      × (y.objects ≡ n ∷ ns)
      × Removes y.shared.world
      × P n
