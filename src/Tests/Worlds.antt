-- ===== src/Tests/Worlds.antt =====
-- The theorems on worlds and on the buffer of users that left, in a world with two users and a
-- channel.
use ircat.Base.{
  ℕ, ◌≡◌, refl, ◌↔◌, ◌⊎◌, true, false, not, none, some, List, [], ◌∷◌, arith, ◌==◌, if◌then◌else◌,
  take, Bytes, codes, bytes_eq, nat_eq, bytes_has_eq,
}
use ircat.Base.GoMap.{get, put, has}
use ircat.Base.Int.{pos}
use ircat.State.Casemap.{rfc1459, fold, equal}
use ircat.State.Membership.{member_op}
use ircat.State.Channel.{UserId, Channel, founder_flag, is_member, new_channel, add_member}
use ircat.State.World.{
  World, User, new_world, find_by_id, find_by_nick, find_channel, is_safe_name, no_members, ok, err,
  nick_in_use, add_user, join_channel, part_channel, ensure_channel, enter,
}
use ircat.State.World.Users.Reach.{
  Reach, add, join, here, next, nick_unique, find_by_nick_iff, add_user_taken,
}
use ircat.State.World.Channels.{joined, join_channel_lem}
use ircat.State.World.Channels.Leave.{without, dies, part_channel_lem}
use ircat.State.World.Channels.Tended.{found_channel_alive}
use ircat.State.Whowas.{WhowasEntry, new_whowas, lookup, capacity_or_default, record_entry}
use ircat.State.Whowas.Answers.{matching, limited, record_all, newest_first, lookup-record_all}

abbrev pub user_named : Bytes → User
user_named nick = record {
  id = 0;
  nick = nick;
  user = codes "u";
  host = codes "h";
  realname = [];
  modes = [];
  registered = true;
  connect_at = none;
  home_server = [];
  ts = pos 1;
  away = [];
  account = [];
  service = false;
  service_type = [];
  service_distribution = [];
}

abbrev pub world_0 : World
world_0 = new_world rfc1459 0

abbrev pub world_1 : World
world_1 = (add_user world_0 (user_named (codes "Ann")) (pos 5)).0

abbrev pub world_2 : World
world_2 = (add_user world_1 (user_named (codes "Bob")) (pos 6)).0

abbrev pub world_3 : World
world_3 = (join_channel world_2 1 (codes "#Go") (pos 7)).0

last_id_1 : world_1.last_id ≡ 1
unfolding add_user get put fold
last_id_1 = refl

Reach-world_2 : Reach world_0 world_2
Reach-world_2 =
    next (next here (add (user_named (codes "Ann")) (pos 5) (omega arith)))
      (add (user_named (codes "Bob")) (pos 6) (omega (arith, last_id_1)))

Reach-world_3 : Reach world_0 world_3
Reach-world_3 = next Reach-world_2 (join 1 (codes "#Go") (pos 7))

pub reached_2 : Reach (new_world rfc1459 0) world_2
reached_2 = Reach-world_2

pub reached_3 : Reach (new_world rfc1459 0) world_3
reached_3 = Reach-world_3

abbrev pub ann : User
ann = record (user_named (codes "Ann")) { id = 1; connect_at = some (pos 5) }

abbrev pub bob : User
bob = record (user_named (codes "Bob")) { id = 2; connect_at = some (pos 6) }

bob_by_id : find_by_id world_2 2 ≡ some bob
unfolding find_by_id add_user get put fold bytes_eq
bob_by_id = refl

bob_by_nick : find_by_nick world_2 (codes "BOB") ≡ some bob
unfolding find_by_nick add_user get put fold bytes_eq
bob_by_nick = refl

bob_equal : equal world_2.mapping bob.nick bob.nick ≡ true
unfolding equal add_user get put fold bytes_eq
bob_equal = refl

nick_unique_example : ◌≡◌ {A = UserId} 2 2
nick_unique_example = nick_unique 2 2 bob bob Reach-world_2 bob_by_id bob_by_id bob_equal

find_by_nick_iff_example :
    (find_by_nick world_2 (codes "BOB") ≡ some bob)
    ↔ ((find_by_id world_2 2 ≡ some bob) × (equal world_2.mapping bob.nick (codes "BOB") ≡ true))
find_by_nick_iff_example = find_by_nick_iff (codes "BOB") bob Reach-world_2

add_user_taken_example :
    add_user world_2 (user_named (codes "bOB")) (pos 8) ≡ (world_2, err nick_in_use)
unfolding find_by_nick add_user get put fold bytes_eq
add_user_taken_example = add_user_taken (user_named (codes "bOB")) (pos 8) Reach-world_2 refl

abbrev go_channel : Channel
go_channel = record (new_channel (codes "#Go") (pos 7)) { members = (1, member_op) ∷ [] }

go_found : find_channel world_3 (codes "#GO") ≡ some go_channel
unfolding find_channel join_channel ensure_channel enter add_member new_channel founder_flag
    add_user get put fold bytes_eq
go_found = refl

found_channel_alive_example :
    (fold world_3.mapping go_channel.name ≡ fold world_3.mapping (codes "#GO"))
    × ((no_members go_channel ≡ false)
        ⊎ ((is_safe_name (codes "#GO") ≡ true) × (go_channel.modes.server_reop ≡ true)))
found_channel_alive_example = found_channel_alive (codes "#GO") go_channel Reach-world_3 go_found

knows_bob : has 2 world_3.by_id ≡ true
unfolding find_channel join_channel ensure_channel enter add_member new_channel founder_flag
    add_user get put fold bytes_eq
knows_bob = refl

join_channel_lem_example :
    let told = joined (codes "#go") 2 (find_channel world_3 (codes "#go")) in
    ((join_channel world_3 2 (codes "#go") (pos 9)).1 ≡ ok told)
    × (ch : Channel) × (find_channel (join_channel world_3 2 (codes "#go") (pos 9)).0 (codes "#go")
        ≡ some ch)
    × (get 2 ch.members ≡ some told.0)
join_channel_lem_example = join_channel_lem world_3 2 (codes "#go") (pos 9) knows_bob refl

ann_is_in : is_member go_channel 1 ≡ true
unfolding get
ann_is_in = refl

part_channel_lem_example :
    ((part_channel world_3 1 (codes "#GO")).1 ≡ ok (dies (codes "#GO") (without go_channel 1)))
    × (get (codes "#go") (part_channel world_3 1 (codes "#GO")).0.by_channel ≡ (
        if not (bytes_eq (fold world_3.mapping (codes "#GO")) (codes "#go"))
        then get (codes "#go") world_3.by_channel
        else if dies (codes "#GO") (without go_channel 1)
        then none
        else some (without go_channel 1)))
    × (get 1 (without go_channel 1).members ≡ (if 1 == 1 then none else get 1 go_channel.members))
part_channel_lem_example =
    part_channel_lem world_3 1 (codes "#GO") go_channel (codes "#go") 1 go_found ann_is_in

abbrev seen : Bytes → ℕ → WhowasEntry
seen nick n = record { nick = nick; user = []; host = []; realname = []; server = []; when = pos n }

abbrev history : List WhowasEntry
history = seen (codes "ann") 1 ∷ seen (codes "bob") 2 ∷ seen (codes "ANN") 3 ∷ []

lookup-record_all_example :
    lookup (record_all (new_whowas (pos 2) rfc1459) history) (codes "ann") (pos 5)
    ≡ some (
        limited (pos 5) (
          matching rfc1459
            (fold rfc1459 (codes "ann"))
            (take (capacity_or_default (pos 2)) (newest_first [] history))))
lookup-record_all_example =
    lookup-record_all (pos 2) rfc1459 history (codes "ann") (pos 5) (λ e. cc e)

-- The buffer of two entries has lost the oldest one.
lookup_test :
    lookup (record_all (new_whowas (pos 2) rfc1459) history) (codes "ann") (pos 5)
    ≡ some (seen (codes "ANN") 3 ∷ [])
unfolding record_all lookup record_entry new_whowas fold bytes_eq
lookup_test = refl
