-- ===== src/Tests/Race.antt =====
-- A join and the part of the last member, in three orders.
use ircat.Base.{◌≡◌, refl, true, false, none, some, [], ◌∷◌, codes, bytes_eq, nat_eq, bytes_has_eq}
use ircat.Base.GoMap.{get, put, erase}
use ircat.Base.Int.{pos}
use ircat.State.Casemap.{rfc1459, fold}
use ircat.State.Membership.{member_op}
use ircat.State.Channel.{Channel, new_channel, founder_flag, remove_member, add_member, no_modes}
use ircat.State.World.{enter}
use ircat.State.World.Race.{Shared, Call, Turn, schedule, advance, find_ref, ensure_ref}
use ircat.Tests.Worlds.{ann, bob}
use ircat.State.World.Race.Lost.{join_split, lost_join}

abbrev go : Channel
go = record {
  name = codes "#go";
  created_at = pos 7;
  topic = [];
  topic_set_by = [];
  topic_set_at = none;
  key = [];
  limit = pos 0;
  modes = no_modes;
  members = (1, member_op) ∷ [];
  bans = [];
  exceptions = [];
  invexes = [];
  quiets = [];
  invites = [];
}

abbrev before : Shared
before = record {
  mapping = rfc1459;
  by_id = (1, ann) ∷ (2, bob) ∷ [];
  by_channel = (codes "#go", 0) ∷ [];
  objects = (0, go) ∷ [];
  next_ref = 1;
}

abbrev calls : Shared × Call × Call
calls = (before, Call.joining 2 (codes "#go"), Call.parting 1 (codes "#go"))

go_indexed : get (fold rfc1459 (codes "#go")) before.by_channel ≡ some 0
unfolding get fold bytes_eq
go_indexed = refl

bob_known : get 2 before.by_id ≡ some bob
unfolding get
bob_known = refl

go_held : get 0 before.objects ≡ some go
unfolding get
go_held = refl

lost_join_example :
    let end = schedule (pos 9) join_split calls in
    (end.1 ≡ Call.joined 0 true)
    × (end.2 ≡ Call.parted true)
    × (find_ref end.0 (codes "#go") ≡ none)
lost_join_example =
    lost_join before (pos 9) (codes "#go") 0 go 1 2 member_op bob bob_known refl go_indexed go_held
      refl refl

-- The join runs through before the part begins: the channel stays, with the joiner in it.
join_first_test :
    let end =
      schedule
        (pos 9)
        (Turn.left ∷ Turn.left ∷ Turn.left ∷ Turn.right ∷ Turn.right ∷ Turn.right ∷ [])
        calls in
    (end.2 ≡ Call.parted false) × (find_ref end.0 (codes "#go") ≡ some 0)
unfolding schedule advance ensure_ref find_ref enter add_member remove_member get put erase fold
    bytes_eq
join_first_test = (refl, refl)

-- The part runs through before the join begins: the joiner founds the channel again.
part_first_test :
    let end =
      schedule
        (pos 9)
        (Turn.right ∷ Turn.right ∷ Turn.right ∷ Turn.right ∷ Turn.left ∷ Turn.left ∷ Turn.left ∷ [])
        calls in
    (end.1 ≡ Call.joined member_op true) × (find_ref end.0 (codes "#go") ≡ some 1)
unfolding schedule advance ensure_ref find_ref enter add_member remove_member new_channel
    founder_flag get put erase fold bytes_eq
part_first_test = (refl, refl)
