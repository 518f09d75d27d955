-- ===== src/Server/Channels/Commands/Invited.antt =====
-- What an INVITE is good for.
use ircat.Base.{
  ◌≡◌, refl, true, false, not, ◌&&◌, some, [], ◌∷◌, arith, Bytes, nat_eq, bytes_has_eq, beq_refl,
}
use ircat.Base.GoMap.{get-put}
use ircat.State.Casemap.{CaseMapping, fold}
use ircat.State.Membership.{is_op}
use ircat.State.Channel.{Channel, is_member, membership}
use ircat.State.Channel.Masks.{add_invite, consume_invite}
use ircat.State.World.{World, User, find_by_nick, find_channel, store_channel}
use ircat.Server.Channels.{pass_invite_only}
use ircat.Server.Channels.Commands.{InviteOutcome, handle_invite}

stored_found :
    (w : World) (name : Bytes) (old ch : Channel)
    → find_channel w name ≡ some old
    → find_channel (store_channel w name ch) name ≡ some ch
unfolding find_channel
stored_found w name old ch h = ground (
  arith,
  get-put (fold w.mapping name) (fold w.mapping name) ch w.by_channel,
  beq_refl (fold w.mapping name),
)

invite_opens :
    (m : CaseMapping) (ch : Channel) (u : User)
    → (pass_invite_only m (add_invite ch u.id).0 u).1 ≡ false
unfolding pass_invite_only consume_invite add_invite
invite_opens m ch u = ground (arith, get-put u.id u.id tt ch.invites)

-- A registered member who invites a user that is found and no member, to a channel that is found,
-- and who is op there if it has +i: the invite is told, the channel is then found with the invite
-- noted, and the test of +i on that channel lets the invited user pass.
pub invited_passes :
    (w : World) (u target : User) (nick name : Bytes) (ch : Channel)
    → u.registered ≡ true
    → find_by_nick w nick ≡ some target
    → find_channel w name ≡ some ch
    → is_member ch u.id ≡ true
    → is_member ch target.id ≡ false
    → (ch.modes.invite_only && not (is_op (membership ch u.id))) ≡ false
    → let (w', o) = handle_invite w u (nick ∷ name ∷ []) in
      (o ≡ InviteOutcome.invited target.id name)
      × (find_channel w' name ≡ some (add_invite ch target.id).0)
      × ((pass_invite_only w.mapping (add_invite ch target.id).0 target).1 ≡ false)
unfolding handle_invite
invited_passes w u target nick name ch reg found at here away may =
    rw (reg, found, at, here, away, may)
      (
        refl,
        stored_found w name ch (add_invite ch target.id).0 at,
        invite_opens w.mapping ch target,
      )
