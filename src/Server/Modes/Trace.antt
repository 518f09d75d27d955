-- ===== src/Server/Modes/Trace.antt =====
-- The run over a mode string without its accumulators: what each character did, in order.
use ircat.Base.{
  ℕ, ◌≡◌, refl, ap, ◌∙◌, inl, inr, Bool, true, false, Option, none, some, List, [], ◌∷◌, ◌++◌,
  append-nil, append_assoc, arith, if◌then◌else◌, Bool-cases, Bytes,
}
use ircat.Base.Int.{ℤ}
use ircat.State.Channel.{Channel}
use ircat.State.World.{World}
use ircat.Server.Modes.{
  mode_kind, Acted, act, Applied, last_byte, flush_after, flush_dir, note, is_sign, run_modes,
  apply_channel_modes,
}

-- A change that is broadcast: its sign, its letter and its parameters.
abbrev pub Change : Type 0
Change = ℕ × ℕ × List Bytes

pub record Trace : Type 0 where
  pub channel : Channel
  pub changes : List Change
  pub bad : Bytes

abbrev pub more : ℕ → ℕ → Acted → Trace → Trace
more dir mc a t = record {
  channel = t.channel;
  changes = elim a.shown [ none ↦ t.changes | some params ↦ (dir, mc, params) ∷ t.changes ];
  bad = if a.bad then mc ∷ t.bad else t.bad;
}

unfoldable pub trace : World → ℤ → Bytes → ℕ → List Bytes → Channel → Trace
trace w now [] dir args c = record { channel = c; changes = []; bad = [] }
trace w now (mc ∷ s) dir args c =
    let a = act w now (mode_kind mc) mc dir c args in
    let turned = trace w now s mc args c in
    let later = trace w now s dir a.args a.channel in
    if is_sign mc then turned else more dir mc a later

-- Each change is written with a sign of its own.
abbrev pub written : List Change → Bytes
written [] = []
written ((dir, mc, _) ∷ l) = dir ∷ mc ∷ written l

abbrev pub all_params : List Change → List Bytes
all_params [] = []
all_params ((_, _, params) ∷ l) = params ++ all_params l

-- what is collected of a trace behind what was collected before
abbrev pub behind : Applied → Trace → Applied
behind r t = record {
  channel = t.channel;
  changes = r.changes ++ written t.changes;
  params = r.params ++ all_params t.changes;
  bad_chars = r.bad_chars ++ t.bad;
}

-- A list that `flushDir` meets: it does not end in a sign.
abbrev NoSign : Option ℕ → Type 0
NoSign none = Unit
NoSign (some c) = is_sign c ≡ false

last_byte-append : (out : Bytes) (c : ℕ) → last_byte (out ++ c ∷ []) ≡ some c
last_byte-append [] c = refl
last_byte-append (x ∷ []) c = refl
last_byte-append (x ∷ y ∷ out) c = last_byte-append (y ∷ out) c

flush_after-append :
    (d : ℕ) (out : Bytes) (last : Option ℕ)
    → is_sign d ≡ true
    → NoSign last
    → flush_after d out last ≡ out ++ d ∷ []
flush_after-append d out none h n = refl
flush_after-append d out (some c) h n = ground arith

note-channel :
    (dir mc : ℕ) (c : Channel) (args : List Bytes) (shown : Option (List Bytes)) (bad : Bool)
    (r : Applied)
    → (note dir mc (record { channel = c; args = args; shown = shown; bad = bad }) r).channel ≡ c
note-channel dir mc c args none false r = refl
note-channel dir mc c args none true r = refl
note-channel dir mc c args (some ps) false r = refl
note-channel dir mc c args (some ps) true r = refl

behind-note :
    (dir mc : ℕ) (c : Channel) (args : List Bytes) (shown : Option (List Bytes)) (bad : Bool)
    (r : Applied) (t : Trace)
    → is_sign dir ≡ true
    → NoSign (last_byte r.changes)
    → let a : Acted = record { channel = c; args = args; shown = shown; bad = bad } in
      behind (note dir mc a r) t ≡ behind r (more dir mc a t)
behind-note dir mc c args none false r t h n = refl
behind-note dir mc c args none true r t h n = rw (append_assoc r.bad_chars (mc ∷ []) t.bad)
behind-note dir mc c args (some ps) false r t h n = rw (
  flush_after-append dir r.changes (last_byte r.changes) h n,
  append_assoc r.changes (dir ∷ []) (mc ∷ []),
  append_assoc r.changes (dir ∷ mc ∷ []) (written t.changes),
  append_assoc r.params ps (all_params t.changes),
)
behind-note dir mc c args (some ps) true r t h n = rw (
  flush_after-append dir r.changes (last_byte r.changes) h n,
  append_assoc r.changes (dir ∷ []) (mc ∷ []),
  append_assoc r.changes (dir ∷ mc ∷ []) (written t.changes),
  append_assoc r.params ps (all_params t.changes),
  append_assoc r.bad_chars (mc ∷ []) t.bad,
)

NoSign-note :
    (dir mc : ℕ) (c : Channel) (args : List Bytes) (shown : Option (List Bytes)) (bad : Bool)
    (r : Applied)
    → is_sign mc ≡ false
    → NoSign (last_byte r.changes)
    → let a : Acted = record { channel = c; args = args; shown = shown; bad = bad } in
      NoSign (last_byte (note dir mc a r).changes)
NoSign-note dir mc c args none false r h n = n
NoSign-note dir mc c args none true r h n = n
NoSign-note dir mc c args (some ps) false r h n =
    rw (last_byte-append (flush_dir dir r.changes) mc) h
NoSign-note dir mc c args (some ps) true r h n =
    rw (last_byte-append (flush_dir dir r.changes) mc) h

-- The run with its accumulators collects the trace behind what they held, if they do not end in a
-- sign.
pub run_modes-trace :
    (w : World) (now : ℤ) (s : Bytes) (dir : ℕ) (args : List Bytes) (r : Applied)
    → is_sign dir ≡ true
    → NoSign (last_byte r.changes)
    → run_modes w now s dir args r ≡ behind r (trace w now s dir args r.channel)
unfolding run_modes trace
run_modes-trace w now [] dir args r h n =
    rw (append-nil r.changes, append-nil r.params, append-nil r.bad_chars)
run_modes-trace w now (mc ∷ s) dir args r h n =
    let a = act w now (mode_kind mc) mc dir r.channel args in
    elim (Bool-cases (is_sign mc)) [
      | inl e ↦ rw e (run_modes-trace w now s mc args r e n)
      | inr e ↦ rw e (
          run_modes-trace w now s dir a.args (note dir mc a r) h
            (NoSign-note dir mc a.channel a.args a.shown a.bad r e n)
          ∙ ap (λ c. behind (note dir mc a r) (trace w now s dir a.args c))
              (note-channel dir mc a.channel a.args a.shown a.bad r)
          ∙ behind-note dir mc a.channel a.args a.shown a.bad r (trace w now s dir a.args a.channel)
              h n)
    ]

abbrev pub begin : Channel → Applied
begin c = record { channel = c; changes = []; params = []; bad_chars = [] }

-- The run over a mode string with its accumulators collects what the characters did one by one: it
-- ends with the same channel, and of every change, in order, it writes a sign of its own, the
-- letter and the parameters.
pub apply_channel_modes-trace :
    (w : World) (now : ℤ) (c : Channel) (modes : Bytes) (args : List Bytes)
    → apply_channel_modes w now c (modes ∷ args) ≡ behind (begin c) (trace w now modes b'+' args c)
unfolding apply_channel_modes
apply_channel_modes-trace w now c modes args =
    run_modes-trace w now modes b'+' args (begin c) refl tt
