-- ===== src/Federation/Nick/Dropped.antt =====
-- After the removal of the user that a nick leads to.
use ircat.Base.{
  ◌≡◌, inl, inr, false, none, some, arith, ◌==◌, Option-cases, Bytes, bytes_eq, bytes_eq_iff,
  nat_eq, bytes_has_eq,
}
use ircat.Base.{beq_refl}
use ircat.Base.GoMap.{get, erase, get-erase}
use ircat.State.Casemap.{fold}
use ircat.State.Channel.{UserId}
use ircat.State.World.{follow, World, User, is_empty, find_by_nick, remove_user}
use ircat.State.World.Users.{IsConsistent, key_of}

pub removed_eq :
    (w : World) (id : UserId) (u : User) (k : Bytes)
    → get id w.by_id ≡ some u
    → key_of w u ≡ k
    → (remove_user w id).0 ≡ record w { by_id = erase id w.by_id; by_nick = erase k w.by_nick }
unfolding remove_user
removed_eq w id u k e named = ground arith

-- The key of a nick is empty only if the nick is.
look_up :
    (w : World) (nick : Bytes)
    → is_empty nick ≡ false
    → find_by_nick w nick ≡ follow (get (fold w.mapping nick) w.by_nick) (λ id. get id w.by_id)
unfolding find_by_nick
look_up w nick h = rw h

-- After the removal of the user that a nick leads to.
module _ (w : World) (v : IsConsistent w) (nick : Bytes) (old : User)
    (found : find_by_nick w nick ≡ some old) where
  abbrev pub without : World
  without = (remove_user w old.id).0

  pub found_facts :
      (get (fold w.mapping nick) w.by_nick ≡ some old.id)
      × (get old.id w.by_id ≡ some old)
      × (key_of w old ≡ fold w.mapping nick)
  unfolding find_by_nick
  found_facts = elim (Option-cases (get (fold w.mapping nick) w.by_nick)) [
    | inl e ↦ absurd (ground arith)
    | inr (id, e) ↦
        let at_id : get id w.by_id ≡ some old = ground arith in
        let (x, there, named) = v.named (fold w.mapping nick) id e in
        let same : x ≡ old = cc in
        let mine = v.indexed id old at_id in (ground arith, ground arith, rw (← same) named)
  ]

  pub without_eq :
      without
      ≡ record w { by_id = erase old.id w.by_id; by_nick = erase (fold w.mapping nick) w.by_nick }
  without_eq = removed_eq w old.id old (fold w.mapping nick) found_facts.1 found_facts.2

  pub without_other :
      (other : Bytes)
      → bytes_eq (fold w.mapping nick) (fold w.mapping other) ≡ false
      → find_by_nick without other ≡ find_by_nick w other
  unfolding find_by_nick
  without_other other ne =
      rw without_eq (elim (Option-cases (get (fold w.mapping other) w.by_nick)) [
        | inl e ↦ ground (arith, get-erase (fold w.mapping nick) (fold w.mapping other) w.by_nick)
        | inr (id, e) ↦
            let (x, there, named) = v.named (fold w.mapping other) id e in
            let apart : (old.id == id) ≡ false = ground (
              arith,
              found_facts.1,
              found_facts.2,
              bytes_eq_iff (fold w.mapping nick) (fold w.mapping other),
            ) in
            ground (
              arith,
              get-erase (fold w.mapping nick) (fold w.mapping other) w.by_nick,
              get-erase old.id id w.by_id,
            )
      ])

  pub without_self : find_by_nick without nick ≡ none
  unfolding find_by_nick
  without_self = rw without_eq (
      ground (
        arith,
        get-erase (fold w.mapping nick) (fold w.mapping nick) w.by_nick,
        beq_refl (fold w.mapping nick),
      ))
