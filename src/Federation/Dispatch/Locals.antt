-- ===== src/Federation/Dispatch/Locals.antt =====
-- What no message of a peer does to a user of this node.
use ircat.Base.{
  ◌+◌, ◌^◌, ◌<◌, ◌≡◌, Bool, false, some, List, ◌∷◌, Bytes, bytes_eq, nat_eq, bytes_has_eq,
}
use ircat.Base.GoMap.{GoMap, get}
use ircat.State.Casemap.{fold}
use ircat.State.Channel.{UserId, Channel}
use ircat.State.World.{World, User, is_remote}
use ircat.State.World.Users.{IsConsistent}
use ircat.State.World.Users.Reach.{Reach}
use ircat.Protocol.Message.{Message}
use ircat.Federation.Link.{Node}
use ircat.Federation.Dispatch.{LinkCommand}

-- NICK with the lines of a new user, under a nick of the same key
abbrev pub announces : World → Bytes → LinkCommand → List Bytes → Bool
announces w nick LinkCommand.nick (other ∷ _ ∷ _) =
    bytes_eq (fold w.mapping nick) (fold w.mapping other)
announces w nick k params = false

module _ (n : Node) (v : IsConsistent n.site.world) (id : UserId) (u : User)
    (there : get id n.site.world.by_id ≡ some u) (here : is_remote u ≡ false)
    (room : n.site.world.last_id + 1 < 2 ^ 64) where
  abbrev w : World
  w = n.site.world

  abbrev Stays : Node → Type 0
  Stays n' = get id n'.site.world.by_id ≡ get id w.by_id
