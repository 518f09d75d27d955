-- ===== src/Federation/Nick/Split.antt =====
-- Two nodes that hold users of one nick and tell each other of them.
use ircat.Base.{
  ℕ, ◌+◌, ◌^◌, ◌<◌, ◌≡◌, sym, ap, ◌∙◌, true, false, none, some, [], ◌∷◌, arith, Bytes, codes,
}
use ircat.Base.Int.{ℤ, pos}
use ircat.Federation.Nick.Dropped.{without_self}
use ircat.State.Casemap.{CaseMapping}
use ircat.State.World.{User, new_world, is_empty, is_remote, find_by_nick, remove_user, hostmask}
use ircat.State.World.Users.{IsConsistent}
use ircat.State.World.Users.Reach.{Reach, Reach-IsConsistent}
use ircat.Protocol.Message.{Message}
use ircat.Server.Federation.{Site}
use ircat.Server.Federation.Sends.{deliver_local-world}
use ircat.Federation.Link.{Node, send, message}
use ircat.Federation.Nick.{
  Incoming, clash, Clash, announce, handle_remote_nick, kill_message, ts_lost,
}
use ircat.Federation.Nick.Collision.{
  stored, announce_lem, announce-IsConsistent, winner, answer, winner_of, answer_of, clash_lem,
}
use ircat.Federation.Nick.Announced.{told, handle_remote_nick-user_line}
use ircat.Federation.Burst.{user_line}
use ircat.Federation.Remote.{handle_remote_kill, kill_params, killed_text}

-- KILL takes away a remote user that the nick leads to.
killed_found :
    (s : Site) (kill : Message) (u : User) (nick reason : Bytes)
    → find_by_nick s.world nick ≡ some u
    → is_remote u ≡ true
    → (kill_params s kill (nick ∷ reason ∷ [])).world ≡ (remove_user s.world u.id).0
unfolding kill_params
killed_found s kill u nick reason h remote =
    rw (h, kill_params, remote)
      (ap (λ w. (remove_user w u.id).0)
        (deliver_local-world s
          (message (hostmask u) (codes "QUIT") (killed_text kill reason ∷ []))))

kill_remote :
    (s : Site) (from : Bytes) (u : User) (nick reason : Bytes)
    → IsConsistent s.world
    → find_by_nick s.world nick ≡ some u
    → is_remote u ≡ true
    → find_by_nick (handle_remote_kill s (kill_message from nick reason)).world nick ≡ none
unfolding handle_remote_kill
kill_remote s from u nick reason v h remote =
    rw (killed_found s (kill_message from nick reason) u nick reason h remote)
      (without_self s.world v nick u h)

is_remote_of : (u : User) → is_empty u.home_server ≡ false → is_remote u ≡ true
unfolding is_remote
is_remote_of u h = rw h

clash_younger :
    (old new : ℕ) → 0 < old → old < new → clash (pos new) (pos old) ≡ Clash.incoming_loses
unfolding clash
clash_younger old new p lt = ground arith

clash_older : (old new : ℕ) → 0 < new → new < old → clash (pos new) (pos old) ≡ Clash.incoming_wins
unfolding clash
clash_older old new p lt = ground arith

-- What a node does with the announcement of a younger and of an older user of a nick that it holds.
module _ {m : CaseMapping} {k : ℕ} (n : Node) (i : Incoming) (old : User) (now : ℤ)
    (r : Reach (new_world m k) n.site.world) (full : is_empty i.nick ≡ false)
    (room : n.site.world.last_id + 1 < 2 ^ 64)
    (h : find_by_nick n.site.world i.nick ≡ some old) where
  younger_refused :
      clash i.ts old.ts ≡ Clash.incoming_loses
      → ((announce n i now).link ≡ send n.link (kill_message n.link.local_name i.nick ts_lost))
        × (find_by_nick (announce n i now).site.world i.nick ≡ some old)
  younger_refused c =
      let (found, _, link) = announce_lem n i now r full room in
      (
        link ∙ ap (answer n.link i) h ∙ ap (answer_of n.link i) (sym (clash_lem i.ts old.ts) ∙ c),
        found
            ∙ ap (winner n.site.world i now) h
            ∙ ap (winner_of n.site.world i now old) (sym (clash_lem i.ts old.ts) ∙ c),
      )

  older_wins :
      clash i.ts old.ts ≡ Clash.incoming_wins
      → find_by_nick (announce n i now).site.world i.nick ≡ some (stored n.site.world i now)
  older_wins c =
      let (found, _, _) = announce_lem n i now r full room in
      found
      ∙ ap (winner n.site.world i now) h
      ∙ ap (winner_of n.site.world i now old) (sym (clash_lem i.ts old.ts) ∙ c)

-- The lines that two nodes send of their users of one nick, and the KILL.
pub record Rivals (a b : Node) (name_a : Bytes) (x y : User) (tx ty : ℕ) : Type 0 where
  pub room_a : a.site.world.last_id + 1 < 2 ^ 64
  pub room_b : b.site.world.last_id + 1 < 2 ^ 64
  pub named : is_empty name_a ≡ false
  pub full : is_empty x.nick ≡ false
  pub same : y.nick ≡ x.nick
  pub plain_x : x.service ≡ false
  pub plain_y : y.service ≡ false
  pub ts_x : x.ts ≡ pos tx
  pub ts_y : y.ts ≡ pos ty
  pub stamped : 0 < tx
  pub older : tx < ty
  pub small : ty < 2 ^ 63
  pub at_a : find_by_nick a.site.world x.nick ≡ some x
  pub at_b : find_by_nick b.site.world x.nick ≡ some y

-- Two nodes hold users of one nick, of which the one of the first is older, and neither is a
-- service. Each reads the line of the other's burst: the first keeps its user and sends a KILL of
-- the nick; the second takes the older user in; and when the KILL then arrives there, the nick
-- leads to nobody at the second node, while the first still has its user.
pub collision_splits :
    {m₀ m₁ : CaseMapping} {k₀ k₁ : ℕ} (a b : Node) (name_a name_b : Bytes) (x y : User) (now : ℤ)
    (tx ty : ℕ)
    → Reach (new_world m₀ k₀) a.site.world
    → Reach (new_world m₁ k₁) b.site.world
    → Rivals a b name_a x y tx ty
    → let a' = handle_remote_nick a (user_line name_b y) now in
      let b' = handle_remote_nick b (user_line name_a x) now in
      let kill = kill_message a.link.local_name y.nick ts_lost in
      (a'.link ≡ send a.link kill)
      × (find_by_nick a'.site.world y.nick ≡ some x)
      × (find_by_nick b'.site.world x.nick ≡ some (stored b.site.world (told name_a x) now))
      × (find_by_nick (handle_remote_kill b'.site kill).world x.nick ≡ none)
collision_splits a b name_a name_b x y now tx ty ra rb v =
    let full_y : is_empty y.nick ≡ false = rw v.same v.full in
    let at_y : find_by_nick a.site.world y.nick ≡ some x = rw v.same v.at_a in
    let loses : clash y.ts x.ts ≡ Clash.incoming_loses =
      rw (v.ts_x, v.ts_y) (clash_younger tx ty v.stamped v.older) in
    let wins : clash x.ts y.ts ≡ Clash.incoming_wins =
      rw (v.ts_x, v.ts_y) (clash_older ty tx v.stamped v.older) in
    let (told_a, kept) = younger_refused a (told name_b y) x now ra full_y v.room_a at_y loses in
    let taken = older_wins b (told name_a x) y now rb v.full v.room_b v.at_b wins in
    let line_b = handle_remote_nick-user_line a name_b y now ty v.plain_y v.ts_y v.small in
    let line_a =
      handle_remote_nick-user_line b name_a x now tx v.plain_x v.ts_x
        (omega (arith, v.older, v.small)) in
    let after =
      announce-IsConsistent b (told name_a x) now (Reach-IsConsistent rb) v.full v.room_b in
    (
      rw line_b told_a,
      rw line_b kept,
      rw line_a taken,
      rw (line_a, v.same)
          (kill_remote (announce b (told name_a x) now).site a.link.local_name
            (stored b.site.world (told name_a x) now) x.nick ts_lost after taken
            (is_remote_of (stored b.site.world (told name_a x) now) v.named)),
    )
