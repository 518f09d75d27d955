-- ===== src/Server/Federation/Squit/Repeated.antt =====
-- A SQUIT that comes again.
use ircat.Base.{ℕ, ◌+◌, ◌<◌, ◌≡◌, false, some, [], ◌∷◌, arith, Bytes, nat_eq, bytes_has_eq}
use ircat.Base.GoMap.{GoMap, get}
use ircat.Base.Int.{ℤ}
use ircat.State.World.{is_empty}
use ircat.Server.Federation.{
  Site, SquitKey, squit_key_eq, squit_seen_recently, unexpired, squit_seen_ttl,
}
use ircat.Server.Federation.Forward.{handle_squit}
use ircat.Server.Federation.Squit.{seen_now, reason_of, Unseen}

get-unexpired :
    (k : SquitKey) (m : GoMap SquitKey ℕ) (now exp : ℕ)
    → get k m ≡ some exp
    → now < exp
    → get k (unexpired now m) ≡ some exp
unfolding unexpired get
get-unexpired k [] now exp h lt = cc
get-unexpired k ((j, x) ∷ m) now exp h lt = ground (arith, get-unexpired k m now exp)

-- A message that the guard has seen does nothing but clean up the guard.
seen_again :
    (s : Site) (peer reason : Bytes) (later exp : ℕ) (time : ℤ)
    → get (peer, reason_of reason) s.squit_seen ≡ some exp
    → later < exp
    → ((handle_squit s peer reason later time).sent ≡ s.sent)
      × ((handle_squit s peer reason later time).world ≡ s.world)
unfolding handle_squit squit_seen_recently
seen_again s peer reason later exp time h lt =
    ground (arith, get-unexpired (peer, reason_of reason) s.squit_seen later exp h lt)

-- The same SQUIT that arrives again within five seconds sends nothing and leaves the world as the
-- first one left it.
pub handle_squit_again :
    (s : Site) (peer reason : Bytes) (now later : ℕ) (time time' : ℤ)
    → is_empty peer ≡ false
    → Unseen s peer reason now
    → later < now + squit_seen_ttl
    → let s' = handle_squit s peer reason now time in
      let s'' = handle_squit s' peer reason later time' in
      (s''.sent ≡ s'.sent) × (s''.world ≡ s'.world)
handle_squit_again s peer reason now later time time' full fresh soon =
    seen_again (handle_squit s peer reason now time) peer reason later (now + squit_seen_ttl) time'
      (seen_now s peer reason now time full fresh) soon
