-- ===== src/Server/Modes/Handler/Guard.antt =====
-- Who may change the modes of a channel.
use ircat.Base.{
  ◌≡◌, refl, ap, ◌∙◌, inl, inr, Bool, false, not, ◌&&◌, Option, none, some, List, [], ◌∷◌, arith,
  Bool-cases, Bytes,
}
use ircat.Base.Int.{ℤ}
use ircat.State.Membership.{is_op}
use ircat.State.Channel.{Channel, membership}
use ircat.State.World.{World, User, find_channel}
use ircat.Server.Modes.Handler.{
  ListMode, is_modeless_channel, query_or_mutate, single_query, mode_of_channel, mode_of_found,
  handle_channel_mode,
}

abbrev pub may_change : Channel → User → Bool
may_change ch u = is_op (membership ch u.id) && not (is_modeless_channel ch.name)

query_or_mutate_guard :
    (w : World) (now : ℤ) (u : User) (name : Bytes) (ch : Channel) (params : List Bytes)
    (l : Option ListMode)
    → is_op (membership ch u.id) ≡ false
    → (query_or_mutate w now u name ch params l).0 ≡ w
query_or_mutate_guard w now u name ch params (some l) h = refl
query_or_mutate_guard w now u name ch params none h = rw h refl

mode_of_channel_guard :
    (w : World) (now : ℤ) (u : User) (name : Bytes) (ch : Channel) (params : List Bytes)
    → may_change ch u ≡ false
    → (mode_of_channel w now u name ch params).0 ≡ w
mode_of_channel_guard w now u name ch [] h = refl
mode_of_channel_guard w now u name ch (s ∷ args) h =
    elim (Bool-cases (is_modeless_channel ch.name)) [
      | inl e ↦ rw e refl
      | inr e ↦ rw e (
          query_or_mutate_guard w now u name ch (s ∷ args) (single_query (s ∷ args)) (ground arith))
    ]

-- A MODE for a channel that is found, by a user who has no op rights there or on a modeless
-- channel, leaves the world as it was, whatever its arguments.
pub handle_channel_mode_guard :
    (w : World) (now : ℤ) (u : User) (name : Bytes) (ch : Channel) (params : List Bytes)
    → find_channel w name ≡ some ch
    → may_change ch u ≡ false
    → (handle_channel_mode w now u name params).0 ≡ w
unfolding handle_channel_mode
handle_channel_mode_guard w now u name ch params found h =
    ap (λ o. (mode_of_found w now u name params o).0) found
    ∙ mode_of_channel_guard w now u name ch params h
