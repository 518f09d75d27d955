-- ===== src/Server/Federation/Sends.antt =====
-- Where local delivery goes.
use ircat.Base.{
  ◌≡◌, refl, ap, inl, inr, Option, none, some, List, [], ◌∷◌, arith, Option-cases, Bytes,
}
use ircat.Protocol.Message.{Message}
use ircat.State.Channel.{Channel}
use ircat.State.World.{User, find_by_nick, find_channel}
use ircat.Server.Federation.{
  Site, Delivery, delivery, deliver_as, deliver_local, deliver_message, deliver_event,
  deliver_to_channel, deliver_to_user, deliver_channel_local_only, deliver_per_user_channels,
  deliver_wallops_local, sender_nick_from_prefix,
}

-- Local delivery sends and does nothing else.
abbrev pub OnlySends : Site → Site → Type 0
OnlySends s s' = s' ≡ record s { sent = s'.sent }

to_channel_sends :
    (s : Site) (m : Message) (o : Option Channel) → OnlySends s (deliver_to_channel s m o)
unfolding deliver_channel_local_only
to_channel_sends s m none = refl
to_channel_sends s m (some ch) = refl

to_user_sends : (s : Site) (m : Message) (o : Option User) → OnlySends s (deliver_to_user s m o)
to_user_sends s m none = refl
to_user_sends s m (some u) = ground arith

message_sends : (s : Site) (m : Message) (ps : List Bytes) → OnlySends s (deliver_message s m ps)
unfolding deliver_message
message_sends s m [] = refl
message_sends s m (p ∷ ps) = ground (
  arith,
  to_channel_sends s m (find_channel s.world p),
  to_user_sends s m (find_by_nick s.world p),
)

event_sends : (s : Site) (m : Message) (ps : List Bytes) → OnlySends s (deliver_event s m ps)
unfolding deliver_event
event_sends s m [] = refl
event_sends s m (p ∷ ps) = to_channel_sends s m (find_channel s.world p)

pub per_user_sends : (s : Site) (m : Message) → OnlySends s (deliver_per_user_channels s m)
unfolding deliver_per_user_channels
per_user_sends s m = elim (Option-cases (find_by_nick s.world (sender_nick_from_prefix m.prefix))) [
  | inl e ↦ rw (e, deliver_per_user_channels) refl
  | inr (u, e) ↦ rw (e, deliver_per_user_channels) refl
]

as_sends : (d : Delivery) (s : Site) (m : Message) → OnlySends s (deliver_as d s m)
unfolding deliver_as deliver_wallops_local
as_sends Delivery.message s m = message_sends s m m.params
as_sends Delivery.channel_event s m = event_sends s m m.params
as_sends Delivery.user_event s m = per_user_sends s m
as_sends Delivery.wallops_event s m = refl
as_sends Delivery.other s m = refl

pub deliver_local_sends : (s : Site) (m : Message) → OnlySends s (deliver_local s m)
unfolding deliver_local
deliver_local_sends s m = as_sends (delivery m.command) s m

pub deliver_local-world : (s : Site) (m : Message) → (deliver_local s m).world ≡ s.world
deliver_local-world s m = ap (λ x. x.world) (deliver_local_sends s m)
