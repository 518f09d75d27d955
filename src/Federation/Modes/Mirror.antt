-- ===== src/Federation/Modes/Mirror.antt =====
-- A MODE that a server applies and then forwards does the same on the channel of a peer, as far as
-- its letters are ones that `applyRemoteChannelMode` knows.
use ircat.Base.{
  ℕ, ◌≡◌, refl, sym, ap, ◌∙◌, inl, inr, Bool, true, false, ◌||◌, List, [], ◌∷◌, arith, ◌==◌,
  Bool-cases, all, Bytes,
}
use ircat.Base.Int.{ℤ}
use ircat.State.Channel.{Channel}
use ircat.State.Casemap.{CaseMapping}
use ircat.State.World.{World, new_world}
use ircat.State.World.Users.Reach.{Reach}
use ircat.Server.Modes.Replay.{apply_channel_modes_again}
use ircat.Server.Modes.{ModeKind, mode_kind, act, is_sign, apply_channel_modes}
use ircat.Server.Modes.Trace.{trace, apply_channel_modes-trace}
use ircat.Federation.Modes.{
  RemoteKind, remote_kind, remote_act, remote_modes, apply_remote_channel_mode,
}

-- the case of `applyChannelModes` for the same letters
abbrev home_kind : RemoteKind → ModeKind
home_kind RemoteKind.plain = ModeKind.plain
home_kind RemoteKind.key = ModeKind.key
home_kind RemoteKind.limit = ModeKind.limit
home_kind RemoteKind.op = ModeKind.op
home_kind RemoteKind.voice = ModeKind.voice
home_kind RemoteKind.ban = ModeKind.ban
home_kind RemoteKind.ignored = ModeKind.unknown

abbrev is_known : RemoteKind → Bool
is_known RemoteKind.ignored = false
is_known _ = true

-- A sign, or a letter that a peer knows.
abbrev pub is_federated : ℕ → Bool
is_federated mc = is_sign mc || is_known (remote_kind mc)

kinds_agree :
    (mc : ℕ) → is_known (remote_kind mc) ≡ true → mode_kind mc ≡ home_kind (remote_kind mc)
unfolding mode_kind remote_kind
kinds_agree mc h = ground arith

module _ (w : World) (now : ℤ) (mc dir : ℕ) (c : Channel) where
  act_agrees :
      (k : RemoteKind) (args : List Bytes)
      → is_known k ≡ true
      → ((act w now (home_kind k) mc dir c args).channel
          ≡ (remote_act w now k mc (dir == b'+') c args).0)
        × ((act w now (home_kind k) mc dir c args).args
            ≡ (remote_act w now k mc (dir == b'+') c args).1)
  unfolding act remote_act
  act_agrees RemoteKind.plain args h = ground arith
  act_agrees RemoteKind.key [] h = ground arith
  act_agrees RemoteKind.key (k ∷ args) h = ground arith
  act_agrees RemoteKind.limit [] h = ground arith
  act_agrees RemoteKind.limit (k ∷ args) h = ground arith
  act_agrees RemoteKind.op [] h = ground arith
  act_agrees RemoteKind.op (k ∷ args) h = ground arith
  act_agrees RemoteKind.voice [] h = ground arith
  act_agrees RemoteKind.voice (k ∷ args) h = ground arith
  act_agrees RemoteKind.ban [] h = ground arith
  act_agrees RemoteKind.ban (k ∷ args) h = ground arith
  act_agrees RemoteKind.ignored args h = cc

-- The channel alone, of a run without accumulators.
remote_modes-trace :
    (w : World) (now : ℤ) (s : Bytes) (dir : ℕ) (c : Channel) (args : List Bytes)
    → all is_federated s ≡ true
    → remote_modes w now s dir (c, args) ≡ (trace w now s dir args c).channel
unfolding remote_modes trace all
remote_modes-trace w now [] dir c args h = refl
remote_modes-trace w now (mc ∷ s) dir c args h = elim (Bool-cases (is_sign mc)) [
  | inl e ↦ rw e (remote_modes-trace w now s mc c args (ground arith))
  | inr e ↦
      let known : is_known (remote_kind mc) ≡ true = ground arith in
      let same = act_agrees w now mc dir c (remote_kind mc) args known in
      rw (e, kinds_agree mc known, same.0, same.1)
        (remote_modes-trace w now s dir
          (remote_act w now (remote_kind mc) mc (dir == b'+') c args).0
          (remote_act w now (remote_kind mc) mc (dir == b'+') c args).1 (ground arith))
]

pub apply_remote-applied :
    (w : World) (now : ℤ) (c : Channel) (word : Bytes) (args : List Bytes)
    → all is_federated word ≡ true
    → apply_remote_channel_mode w c (word ∷ args) now
      ≡ (apply_channel_modes w now c (word ∷ args)).channel
unfolding apply_remote_channel_mode
apply_remote-applied w now c word args h =
    remote_modes-trace w now word b'+' c args h
    ∙ sym (ap (λ r. r.channel) (apply_channel_modes-trace w now c word args))

-- In a reached world, for a MODE whose broadcast has only letters that a peer knows: a peer that
-- applies the broadcast to the channel as it was, at the same time and with users found alike, has
-- the channel that the sender's node has.
pub forwarded_mode :
    {m : CaseMapping} {n : ℕ} {w : World} (now : ℤ) (c : Channel) (word : Bytes) (args : List Bytes)
    → Reach (new_world m n) w
    → all is_federated (apply_channel_modes w now c (word ∷ args)).changes ≡ true
    → let done = apply_channel_modes w now c (word ∷ args) in
      apply_remote_channel_mode w c (done.changes ∷ done.params) now ≡ done.channel
forwarded_mode {w = w} now c word args r h =
    let done = apply_channel_modes w now c (word ∷ args) in
    apply_remote-applied w now c done.changes done.params h
    ∙ ap (λ a. a.channel) (apply_channel_modes_again now c word args r)
