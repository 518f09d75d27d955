-- ===== src/State/World/Race.antt =====
-- `JoinChannel` and `PartChannel` of internal/state/world.go as the steps that they are: each step
-- is what runs under one lock of the world or of the channel, and a `*Channel` that a call holds
-- between two steps stays valid when the index has dropped it. `FindByID` of a join is a step of its
-- own, under the read lock.
pub mod Lost
use ircat.Base.{
  ℕ, ◌+◌, Bool, true, false, not, ◌&&◌, Option, none, some, List, [], ◌∷◌, if◌then◌else◌, Bytes,
  nat_eq, bytes_has_eq,
}
use ircat.Base.GoMap.{GoMap, get, put, erase}
use ircat.Base.Int.{ℤ}
use ircat.State.Casemap.{CaseMapping, fold}
use ircat.State.Membership.{Membership}
use ircat.State.Channel.{UserId, Channel, new_channel, remove_member}
use ircat.State.World.{User, is_empty, is_safe_name, no_members, enter}

-- a `*Channel`
abbrev pub Ref : Type 0
Ref = ℕ

pub record Shared : Type 0 where
  pub mapping : CaseMapping
  pub by_id : GoMap UserId User
  pub by_channel : GoMap Bytes Ref
  pub objects : GoMap Ref Channel
  pub next_ref : Ref

-- `FindChannel`
unfoldable pub find_ref : Shared → Bytes → Option Ref
find_ref s name = if is_empty name then none else get (fold s.mapping name) s.by_channel

-- `EnsureChannel`, on what the index holds
abbrev pub ensure_held : Shared → Bytes → ℤ → Option Ref → Shared × Ref × Bool
ensure_held s name now (some r) = (s, r, false)
ensure_held s name now none = (
  record s {
    by_channel = put (fold s.mapping name) s.next_ref s.by_channel;
    objects = put s.next_ref (new_channel name now) s.objects;
    next_ref = s.next_ref + 1;
  },
  s.next_ref,
  true,
)

unfoldable pub ensure_ref : Shared → Bytes → ℤ → Shared × Ref × Bool
ensure_ref s name now = ensure_held s name now (get (fold s.mapping name) s.by_channel)

abbrev pub write_ref : Shared → Ref → Channel → Shared
write_ref s r ch = record s { objects = put r ch s.objects }

-- a call, by what it does next
pub data Call : Type 0 where
  joining ensuring : UserId → Bytes → Call
  holding : UserId → Bytes → Ref → Bool → Call
  parting : UserId → Bytes → Call
  leaving : UserId → Bytes → Ref → Call
  counting : Bytes → Ref → Call
  dropping : Bytes → Call
  joined : Membership → Bool → Call
  parted : Bool → Call
  failed : Call

abbrev pub join_known : Shared → UserId → Bytes → Option User → Shared × Call
join_known s id name none = (s, Call.failed)
join_known s id name (some _) = (s, Call.ensuring id name)

abbrev pub enter_object : Shared → UserId → Bytes → Ref → Bool → Option Channel → Shared × Call
enter_object s id name r created none = (s, Call.failed)
enter_object s id name r created (some ch) =
    let (ch', mem, added) = enter ch id name created in (write_ref s r ch', Call.joined mem added)

abbrev pub part_found : Shared → UserId → Bytes → Option Ref → Shared × Call
part_found s id name none = (s, Call.failed)
part_found s id name (some r) = (s, Call.leaving id name r)

abbrev pub leave_object : Shared → UserId → Bytes → Ref → Option Channel → Shared × Call
leave_object s id name r none = (s, Call.failed)
leave_object s id name r (some ch) =
    let (ch', removed) = remove_member ch id in
    (write_ref s r ch', if removed then Call.counting name r else Call.failed)

abbrev pub count_object : Shared → Bytes → Option Channel → Shared × Call
count_object s name none = (s, Call.failed)
count_object s name (some ch) =
    if no_members ch && not (is_safe_name name && ch.modes.server_reop)
    then (s, Call.dropping name)
    else (s, Call.parted false)

-- One step of a call. The tests and writes of `JoinChannel` on the channel that it holds are one
-- step here.
unfoldable pub advance : ℤ → Shared → Call → Shared × Call
advance now s (Call.joining id name) = join_known s id name (get id s.by_id)
advance now s (Call.ensuring id name) =
    let (s', r, created) = ensure_ref s name now in (s', Call.holding id name r created)
advance now s (Call.holding id name r created) = enter_object s id name r created (get r s.objects)
advance now s (Call.parting id name) = part_found s id name (find_ref s name)
advance now s (Call.leaving id name r) = leave_object s id name r (get r s.objects)
advance now s (Call.counting name r) = count_object s name (get r s.objects)
advance now s (Call.dropping name) =
    (record s { by_channel = erase (fold s.mapping name) s.by_channel }, Call.parted true)
advance now s c = (s, c)

-- which of two calls moves
pub data Turn : Type 0 where
  left right : Turn

abbrev pub move : ℤ → Turn → Shared × Call × Call → Shared × Call × Call
move now Turn.left (s, a, b) = let (s', a') = advance now s a in (s', a', b)
move now Turn.right (s, a, b) = let (s', b') = advance now s b in (s', a, b')

unfoldable pub schedule : ℤ → List Turn → Shared × Call × Call → Shared × Call × Call
schedule now [] sys = sys
schedule now (t ∷ ts) sys = schedule now ts (move now t sys)
