-- ===== src/State/World/Channels/Leave.antt =====
-- Leaving, and which channels outlive their last member.
use ircat.Base.{
  ◌≡◌, Bool, true, false, not, ◌&&◌, none, some, arith, ◌==◌, if◌then◌else◌, Bytes, bytes_eq,
  nat_eq, bytes_has_eq,
}
use ircat.Base.GoMap.{get, put, erase, get-put, get-erase}
use ircat.State.Casemap.{fold}
use ircat.State.Channel.{UserId, Channel, is_member, remove_member}
use ircat.State.World.{
  World, find_channel, is_safe_name, no_members, drop_channel, leave, part_channel, ok, err,
  no_such_user, no_such_channel,
}

-- the channel that a leaver leaves behind
abbrev pub without : Channel → UserId → Channel
without ch id = record ch { members = erase id ch.members }

-- An empty channel is kept only if its name begins with `!` and it has +r.
abbrev pub keeps_empty : Bytes → Channel → Bool
keeps_empty name ch = is_safe_name name && ch.modes.server_reop

abbrev pub dies : Bytes → Channel → Bool
dies name rest = no_members rest && not (keeps_empty name rest)

-- A part of a member leaves the channel found under the name with every other member and that
-- one's flags, without the leaver, and with all else as it was; the channel is dropped exactly if
-- nobody is left and it is no safe channel with +r; every other entry of the channel index stays.
pub part_channel_lem :
    (w : World) (id : UserId) (name : Bytes) (ch : Channel) (k : Bytes) (j : UserId)
    → find_channel w name ≡ some ch
    → is_member ch id ≡ true
    → ((part_channel w id name).1 ≡ ok (dies name (without ch id)))
      × (get k (part_channel w id name).0.by_channel ≡ (
          if not (bytes_eq (fold w.mapping name) k)
          then get k w.by_channel
          else if dies name (without ch id)
          then none
          else some (without ch id)))
      × (get j (without ch id).members ≡ (if id == j then none else get j ch.members))
unfolding part_channel leave drop_channel remove_member
part_channel_lem w id name ch k j found member =
    rw (found, part_channel)
      (ground (
        arith,
        get-put (fold w.mapping name) k (without ch id) w.by_channel,
        get-erase id j ch.members,
        get-erase (fold w.mapping name) k (put (fold w.mapping name) (without ch id) w.by_channel),
      ))

-- A part that fails names the reason and changes nothing.
pub part_channel_errors :
    (w : World) (id : UserId) (name : Bytes)
    → (find_channel w name ≡ none → part_channel w id name ≡ (w, err no_such_channel))
      × ((ch : Channel)
          → find_channel w name ≡ some ch
          → is_member ch id ≡ false
          → part_channel w id name ≡ (w, err no_such_user))
unfolding part_channel leave remove_member
part_channel_errors w id name =
    ((λ h. rw (h, part_channel)), (λ ch h m. rw (h, part_channel) (ground arith)))
