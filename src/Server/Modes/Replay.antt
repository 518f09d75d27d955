-- ===== src/Server/Modes/Replay.antt =====
-- What a MODE command is broadcast as, applied to the channel as it was, does the same again.
pub mod Act
use ircat.Base.{
  ℕ, ◌≡◌, refl, sym, ap, ◌∙◌, inl, inr, Bool, true, false, Option, none, some, List, [], ◌∷◌, ◌++◌,
  Bool-cases, Bytes,
}
use mathlib.Core.Path.{subst}
use ircat.State.Casemap.{CaseMapping}
use ircat.State.Casemap.Folding.{equal_iff}
use ircat.State.World.Users.Reach.{Reach, find_by_nick_iff}
use ircat.Base.Int.{ℤ}
use ircat.State.Channel.{Channel}
use ircat.State.World.{new_world, World}
use ircat.Server.Modes.{mode_kind, act, Applied, is_sign, apply_channel_modes}
use ircat.Server.Modes.Trace.{
  Trace, more, trace, written, all_params, begin, behind, apply_channel_modes-trace,
}
use ircat.Server.Modes.Replay.Act.{Finds, Again, act-Replays}

-- What a trace wrote, read from any sign, gives its channel and its changes.
abbrev Rereads : World → ℤ → Channel → Trace → Type 0
Rereads w now c t =
    (d : ℕ) → trace w now (written t.changes) d (all_params t.changes) c ≡ record t { bad = [] }

trace_signed :
    (w : World) (now : ℤ) (mc dir d : ℕ) (c : Channel) (s : Bytes) (args : List Bytes)
    → is_sign dir ≡ true
    → is_sign mc ≡ false
    → let a = act w now (mode_kind mc) mc dir c args in
      trace w now (dir ∷ mc ∷ s) d args c ≡ more dir mc a (trace w now s dir a.args a.channel)
unfolding trace
trace_signed w now mc dir d c s args hd hm = rw (hd, hm) refl

abbrev pub all_known : Applied → Applied
all_known r = record r { bad_chars = [] }

more-Rereads :
    (w : World) (now : ℤ) (mc dir : ℕ) (c c' : Channel) (args : List Bytes)
    (shown : Option (List Bytes)) (bad : Bool) (t : Trace)
    → is_sign dir ≡ true
    → is_sign mc ≡ false
    → Again (act w now (mode_kind mc) mc dir c) c shown c'
    → Rereads w now c' t
    → Rereads w now c
        (more dir mc (record { channel = c'; args = args; shown = shown; bad = bad }) t)
unfolding trace
more-Rereads w now mc dir c c' args none bad t hd hm hr ht = λ d.
    subst (λ c. trace w now (written t.changes) d (all_params t.changes) c ≡ record t { bad = [] })
      hr (ht d)
more-Rereads w now mc dir c c' args (some ps) bad t hd hm hr ht = λ d.
    trace_signed w now mc dir d c (written t.changes) (ps ++ all_params t.changes) hd hm
    ∙ ap (λ a. more dir mc a (trace w now (written t.changes) dir a.args a.channel))
        (hr (all_params t.changes))
    ∙ ap
        (more dir mc
          (record { channel = c'; args = all_params t.changes; shown = some ps; bad = false }))
        (ht dir)

trace-Rereads :
    (w : World) (now : ℤ) (s : Bytes) (dir : ℕ) (args : List Bytes) (c : Channel)
    → Finds w
    → is_sign dir ≡ true
    → Rereads w now c (trace w now s dir args c)
unfolding trace
trace-Rereads w now [] dir args c h hd = λ d. refl
trace-Rereads w now (mc ∷ s) dir args c h hd =
    let a = act w now (mode_kind mc) mc dir c args in
    elim (Bool-cases (is_sign mc)) [
      | inl e ↦ rw e (trace-Rereads w now s mc args c h e)
      | inr e ↦ rw e (
          more-Rereads w now mc dir c a.channel a.args a.shown a.bad
            (trace w now s dir a.args a.channel) hd e
            (act-Replays w now (mode_kind mc) mc dir c args h)
            (trace-Rereads w now s dir a.args a.channel h hd))
    ]

reached-Finds : {m : CaseMapping} {n : ℕ} {w : World} → Reach (new_world m n) w → Finds w
reached-Finds {w = w} r arg u e =
    let (stored, _) = (find_by_nick_iff arg u r).0 e in
    (find_by_nick_iff u.nick u r).1 (stored, (equal_iff w.mapping u.nick u.nick).1 refl)

-- In a reached world, the changes and parameters that a channel MODE broadcasts, applied at the
-- same time to the channel as it was, give the same channel and the same broadcast, and no
-- character of it is unknown.
pub apply_channel_modes_again :
    {m : CaseMapping} {n : ℕ} {w : World} (now : ℤ) (c : Channel) (modes : Bytes)
    (args : List Bytes)
    → Reach (new_world m n) w
    → let done = apply_channel_modes w now c (modes ∷ args) in
      apply_channel_modes w now c (done.changes ∷ done.params) ≡ all_known done
apply_channel_modes_again {w = w} now c modes args r =
    let t = trace w now modes b'+' args c in
    ap (λ d. apply_channel_modes w now c (d.changes ∷ d.params))
      (apply_channel_modes-trace w now c modes args)
    ∙ apply_channel_modes-trace w now c (written t.changes) (all_params t.changes)
    ∙ ap (behind (begin c)) (trace-Rereads w now modes b'+' args c (reached-Finds r) refl b'+')
    ∙ ap all_known (sym (apply_channel_modes-trace w now c modes args))
