-- ===== src/Federation/Nick/Collision.antt =====
-- Who holds a nick after a peer has announced a user of that nick.
use ircat.Base.{
  ℕ, ◌+◌, ◌^◌, ◌<◌, ◌≡◌, refl, ◌∙◌, inl, inr, false, ◌||◌, Option, none, some, arith, if◌then◌else◌,
  Option-cases, Bytes, bytes_eq, nat_eq, bytes_has_eq,
}
use ircat.Federation.Nick.Dropped.{without_eq, without_other, without_self}
use mathlib.Core.Path.{subst}
use ircat.Base.{beq_refl}
use ircat.State.World.Users.Added.{added_self, added_other}
use ircat.State.World.Users.Leave.{remove_user-IsConsistent}
use ircat.Base.GoMap.{get, erase, get-erase}
use ircat.Base.Int.{ℤ, pos, negsuc, eq_ℤ, ltb_ℤ}
use ircat.State.Casemap.{CaseMapping, fold}
use ircat.State.World.{World, User, new_world, is_empty, find_by_nick, remove_user, next_id, or_now}
use ircat.State.World.Users.{IsConsistent, add_user-IsConsistent}
use ircat.State.World.Users.Reach.{Reach, Reach-IsConsistent}
use ircat.Server.Federation.{drop_local_user}
use ircat.Federation.Link.{Node, Link, send}
use ircat.Federation.Nick.{
  Incoming, incoming_user, Clash, clash, resolve, announce, drop_existing, add_incoming, send_kill,
  equal_ts, ts_lost, kill_message,
}

-- the record under which an incoming user is stored
abbrev pub stored : World → Incoming → ℤ → User
stored w i now = record (incoming_user i) { id = next_id w; connect_at = or_now none now }

add_incoming-link : (n : Node) (i : Incoming) (now : ℤ) → (add_incoming n i now).link ≡ n.link
unfolding add_incoming
add_incoming-link n i now = refl

drop_existing-link :
    (n : Node) (u : User) (reason : Bytes) → (drop_existing n u reason).link ≡ n.link
unfolding drop_existing
drop_existing-link n u reason = refl

-- who holds the nick afterwards, and what the link has then sent, by who held it before
abbrev pub winner_of : World → Incoming → ℤ → User → Clash → Option User
winner_of w i now old Clash.both_lose = none
winner_of w i now old Clash.incoming_loses = some old
winner_of w i now old Clash.incoming_wins = some (stored w i now)

-- The same by age, a timestamp of 0 being the oldest of all.
abbrev pub by_age : ℤ → ℤ → Clash
by_age ts old =
    if eq_ℤ ts (pos 0) || eq_ℤ old (pos 0) || ltb_ℤ ts old
    then Clash.incoming_wins
    else if eq_ℤ ts old
    then Clash.both_lose
    else Clash.incoming_loses

pub clash_lem : (ts old : ℤ) → clash ts old ≡ by_age ts old
unfolding clash
clash_lem (pos a) (pos b) = ground arith
clash_lem (pos a) (negsuc b) = ground arith
clash_lem (negsuc a) (pos b) = ground arith
clash_lem (negsuc a) (negsuc b) = ground arith

abbrev pub winner : World → Incoming → ℤ → Option User → Option User
winner w i now none = some (stored w i now)
winner w i now (some old) = winner_of w i now old (by_age i.ts old.ts)

abbrev pub answer_of : Link → Incoming → Clash → Link
answer_of l i Clash.both_lose = send l (kill_message l.local_name i.nick equal_ts)
answer_of l i Clash.incoming_loses = send l (kill_message l.local_name i.nick ts_lost)
answer_of l i Clash.incoming_wins = l

abbrev pub answer : Link → Incoming → Option User → Link
answer l i none = l
answer l i (some old) = answer_of l i (by_age i.ts old.ts)

module _ (n : Node) (i : Incoming) (now : ℤ) (v : IsConsistent n.site.world)
    (full : is_empty i.nick ≡ false) (room : n.site.world.last_id + 1 < 2 ^ 64) where
  abbrev holder : Option User
  holder = find_by_nick n.site.world i.nick

  -- what the theorem says of the node that a handler leaves
  abbrev Settled : Option User → Node → Type 0
  Settled o n' =
      (find_by_nick n'.site.world i.nick ≡ winner n.site.world i now o)
      × ((other : Bytes)
          → bytes_eq (fold n.site.world.mapping i.nick) (fold n.site.world.mapping other) ≡ false
          → find_by_nick n'.site.world other ≡ find_by_nick n.site.world other)
      × (n'.link ≡ answer n.link i o)

  nobody_holds : holder ≡ none → get (fold n.site.world.mapping i.nick) n.site.world.by_nick ≡ none
  unfolding find_by_nick
  nobody_holds h =
      elim (Option-cases (get (fold n.site.world.mapping i.nick) n.site.world.by_nick)) [
        | inl e ↦ e
        | inr (id, e) ↦
            let (x, there, named) = v.named (fold n.site.world.mapping i.nick) id e in
            absurd (ground arith)
      ]

  settled_new : holder ≡ none → Settled none (add_incoming n i now)
  unfolding add_incoming
  settled_new h =
      let free = nobody_holds h in
      (
        added_self n.site.world (incoming_user i) now v full free,
        (λ other ne. added_other n.site.world (incoming_user i) now v full free other room ne),
        add_incoming-link n i now,
      )

  module _ (old : User) (h : holder ≡ some old) where
    dropped-world :
        (m : Node) (reason : Bytes)
        → m.site.world ≡ n.site.world
        → (drop_existing m old reason).site.world ≡ (remove_user n.site.world old.id).0
    unfolding drop_existing drop_local_user
    dropped-world m reason e = ground arith

    abbrev left : World
    left = record n.site.world {
      by_id = erase old.id n.site.world.by_id;
      by_nick = erase (fold n.site.world.mapping i.nick) n.site.world.by_nick;
    }

    dropped-left :
        (m : Node) (reason : Bytes)
        → m.site.world ≡ n.site.world
        → (drop_existing m old reason).site.world ≡ left
    dropped-left m reason e = dropped-world m reason e ∙ without_eq n.site.world v i.nick old h

    left-IsConsistent : IsConsistent left
    left-IsConsistent =
        subst IsConsistent (without_eq n.site.world v i.nick old h)
          (remove_user-IsConsistent n.site.world old.id v)

    left_self : find_by_nick left i.nick ≡ none
    left_self =
        rw (← without_eq n.site.world v i.nick old h) (without_self n.site.world v i.nick old h)

    left_other :
        (other : Bytes)
        → bytes_eq (fold n.site.world.mapping i.nick) (fold n.site.world.mapping other) ≡ false
        → find_by_nick left other ≡ find_by_nick n.site.world other
    left_other other ne =
        rw (← without_eq n.site.world v i.nick old h)
          (without_other n.site.world v i.nick old h other ne)

    left_free : get (fold n.site.world.mapping i.nick) left.by_nick ≡ none
    left_free = ground (
      arith,
      get-erase (fold n.site.world.mapping i.nick) (fold n.site.world.mapping i.nick)
          n.site.world.by_nick,
      beq_refl (fold n.site.world.mapping i.nick),
    )

    abbrev SettledBy : Clash → Node → Type 0
    SettledBy k n' =
        (find_by_nick n'.site.world i.nick ≡ winner_of n.site.world i now old k)
        × ((other : Bytes)
            → bytes_eq (fold n.site.world.mapping i.nick) (fold n.site.world.mapping other) ≡ false
            → find_by_nick n'.site.world other ≡ find_by_nick n.site.world other)
        × (n'.link ≡ answer_of n.link i k)

    resolved : (k : Clash) → SettledBy k (resolve k n i old now)
    unfolding resolve add_incoming
    resolved Clash.both_lose =
        let m = send_kill n i.nick equal_ts in
        (
          rw (dropped-left m equal_ts refl) left_self,
          (λ other ne. rw (dropped-left m equal_ts refl) (left_other other ne)),
          drop_existing-link m old equal_ts,
        )
    resolved Clash.incoming_loses = (h, (λ other ne. refl), refl)
    resolved Clash.incoming_wins = (
      rw (dropped-left n ts_lost refl)
          (added_self left (incoming_user i) now left-IsConsistent full left_free),
      (λ other ne. rw (dropped-left n ts_lost refl) (
          added_other left (incoming_user i) now left-IsConsistent full left_free other room ne
          ∙ left_other other ne)),
      drop_existing-link n old ts_lost,
    )

  resolve-IsConsistent :
      (old : User)
      → holder ≡ some old
      → (k : Clash) → IsConsistent (resolve k n i old now).site.world
  unfolding resolve add_incoming
  resolve-IsConsistent old h Clash.both_lose =
      rw (dropped-left old h (send_kill n i.nick equal_ts) equal_ts refl) (left-IsConsistent old h)
  resolve-IsConsistent old h Clash.incoming_loses = v
  resolve-IsConsistent old h Clash.incoming_wins =
      rw (dropped-left old h n ts_lost refl)
        (add_user-IsConsistent (left old h) (incoming_user i) now room (left-IsConsistent old h))

  announced-IsConsistent :
      (o : Option User) → holder ≡ o → IsConsistent (announce n i now).site.world
  unfolding announce add_incoming
  announced-IsConsistent none h =
      rw (h, announce) (add_user-IsConsistent n.site.world (incoming_user i) now room v)
  announced-IsConsistent (some old) h =
      rw (h, announce) (resolve-IsConsistent old h (clash i.ts old.ts))

  pub announce-IsConsistent : IsConsistent (announce n i now).site.world
  announce-IsConsistent = announced-IsConsistent holder refl

  announced : (o : Option User) → holder ≡ o → Settled o (announce n i now)
  unfolding announce
  announced none h = rw (h, announce) (settled_new h)
  announced (some old) h =
      rw (h, announce, clash_lem i.ts old.ts) (resolved old h (by_age i.ts old.ts))

-- A user whom a peer announces under a nick that is not empty, to a node with a reached world and
-- room for an ID: the nick is then held by the announced user where nobody held it or the
-- announced one is older or either has no timestamp, by the old holder where that one is older,
-- and by nobody where both timestamps are the same, whatever user and host the two have; a KILL
-- goes back to the peer exactly in the last two cases; and nicks of other keys lead to whom they
-- led.
pub announce_lem :
    {m : CaseMapping} {k : ℕ} (n : Node) (i : Incoming) (now : ℤ)
    → Reach (new_world m k) n.site.world
    → is_empty i.nick ≡ false
    → n.site.world.last_id + 1 < 2 ^ 64
    → let n' = announce n i now in
      let holder = find_by_nick n.site.world i.nick in
      (find_by_nick n'.site.world i.nick ≡ winner n.site.world i now holder)
      × ((other : Bytes)
          → bytes_eq (fold n.site.world.mapping i.nick) (fold n.site.world.mapping other) ≡ false
          → find_by_nick n'.site.world other ≡ find_by_nick n.site.world other)
      × (n'.link ≡ answer n.link i holder)
announce_lem n i now r full room = announced n i now (Reach-IsConsistent r) full room _ refl
