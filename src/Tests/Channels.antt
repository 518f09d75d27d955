-- ===== src/Tests/Channels.antt =====
-- The theorems on one channel: members, modes, masks and invites.
use ircat.Base.{
  ◌<◌, ◌≡◌, refl, true, false, some, [], ◌∷◌, arith, all, Bytes, codes, bytes_eq, nat_eq,
  bytes_has_eq,
}
use ircat.Base.GoMap.{Distinct, get, has}
use ircat.Base.Int.{pos}
use ircat.State.Glob.Spec.{IsStarFree, IsStarFree-all}
use ircat.State.Channel.{UserId, Channel, no_modes, membership}
use ircat.State.Channel.Members.{IsSound}
use ircat.State.Channel.Modes.{mode_string, mode_letters, itoa_loop, itoa_positive}

-- A safe channel with its creator, a voiced member, a key, a ban and the default modes.
abbrev pub lounge : Channel
lounge = record {
  name = codes "!ABCDEx";
  created_at = pos 100;
  topic = codes "hi";
  topic_set_by = codes "ann";
  topic_set_at = some (pos 5);
  key = codes "k1";
  limit = pos 30;
  modes = record no_modes { no_external = true; topic_locked = true };
  members = (1, 5) ∷ (2, 2) ∷ [];
  bans = (codes "bad!*@*", pos 9) ∷ [];
  exceptions = [];
  invexes = (codes "*!*@ok", pos 8) ∷ [];
  quiets = [];
  invites = [];
}

lounge_bytes : (id : UserId) → membership lounge id < 256
unfolding get
lounge_bytes id = ground arith

lounge-Distinct : Distinct lounge.members
unfolding get
lounge-Distinct = (refl, (refl, tt))

pub lounge-IsSound : IsSound lounge
lounge-IsSound = record { bytes = lounge_bytes; distinct = lounge-Distinct }

mode_string_test : mode_string lounge ≡ (codes "+ntkl", codes "k1" ∷ codes "30" ∷ [])
unfolding mode_string mode_letters itoa_positive itoa_loop
mode_string_test = refl

abbrev same_text : Bytes → Bytes
same_text s = s

free_host : IsStarFree (same_text (codes "bad!u@h"))
unfolding all
free_host = IsStarFree-all (codes "bad!u@h") refl

new_mask : has (codes "*!*@h") lounge.bans ≡ false
unfolding get bytes_eq
new_mask = refl
