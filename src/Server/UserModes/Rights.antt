-- ===== src/Server/UserModes/Rights.antt =====
-- What a user cannot do to its own modes.
use ircat.Base.{
  ℕ, ◌≡◌, refl, ap, inl, inr, Bool, false, not, ◌&&◌, ◌||◌, List, [], ◌∷◌, ◌++◌, arith, ◌==◌,
  Bool-cases, any, filterb, Bytes,
}
use ircat.State.Casemap.{CaseMapping, equal}
use ircat.State.World.{User}
use ircat.Server.UserModes.{
  has_mode, add_mode, del_mode, user_mode, run_user_modes, own_modes, handle_user_mode,
}

any-append : (p : ℕ → Bool) (a b : Bytes) → any p (a ++ b) ≡ (any p a || any p b)
unfolding any
any-append p [] b = refl
any-append p (x ∷ a) b = ground (arith, any-append p a b)

has-add_mode : (x b : ℕ) (cur : Bytes) → has_mode x (add_mode b cur) ≡ (has_mode x cur || b == x)
unfolding add_mode any
has-add_mode x b cur =
    ground (arith, any-append (λ y. y == x) cur (b ∷ []), ap (λ y. has_mode y cur))

has-del_mode :
    (x b : ℕ) (cur : Bytes) → has_mode x (del_mode b cur) ≡ (has_mode x cur && not (b == x))
unfolding del_mode filterb any
has-del_mode x b [] = refl
has-del_mode x b (y ∷ cur) = ground (arith, has-del_mode x b cur)

-- One character decides at most its own mode, gives no operator mode and does not touch any mode
-- other than `i`, `w`, `s` and `o`.
user_mode-oper :
    (dir mc : ℕ) (cur : Bytes)
    → has_mode b'o' cur ≡ false
    → has_mode b'o' (user_mode dir mc cur) ≡ false
unfolding user_mode
user_mode-oper dir mc cur h = ground (arith, has-add_mode b'o' mc cur, has-del_mode b'o' mc cur)

abbrev pub is_own : ℕ → Bool
is_own x = x == b'i' || x == b'w' || x == b's' || x == b'o'

user_mode-other :
    (dir mc x : ℕ) (cur : Bytes)
    → is_own x ≡ false
    → has_mode x (user_mode dir mc cur) ≡ has_mode x cur
unfolding user_mode
user_mode-other dir mc x cur h = ground (arith, has-add_mode x mc cur, has-del_mode x mc cur)

run-oper :
    (s : Bytes) (dir : ℕ) (cur : Bytes)
    → has_mode b'o' cur ≡ false
    → has_mode b'o' (run_user_modes s dir cur) ≡ false
unfolding run_user_modes
run-oper [] dir cur h = h
run-oper (mc ∷ s) dir cur h = ground (
  arith,
  run-oper s mc cur h,
  run-oper s dir (user_mode dir mc cur) (user_mode-oper dir mc cur h),
)

run-other :
    (s : Bytes) (dir x : ℕ) (cur : Bytes)
    → is_own x ≡ false
    → has_mode x (run_user_modes s dir cur) ≡ has_mode x cur
unfolding run_user_modes
run-other [] dir x cur h = refl
run-other (mc ∷ s) dir x cur h = ground (
  arith,
  run-other s mc x cur h,
  run-other s dir x (user_mode dir mc cur) h,
  user_mode-other dir mc x cur h,
)

own_modes-rights :
    (u : User) (params : List Bytes) (x : ℕ)
    → is_own x ≡ false
    → (has_mode b'o' (own_modes u params).0.modes && not (has_mode b'o' u.modes) ≡ false)
      × (has_mode x (own_modes u params).0.modes ≡ has_mode x u.modes)
unfolding own_modes
own_modes-rights u [] x h = (ground arith, refl)
own_modes-rights u (s ∷ l) x h =
    (ground (arith, run-oper s b'+' u.modes), run-other s b'+' x u.modes h)

-- Whatever a user sends as MODE for a nick: one who is no operator does not become one, and every
-- mode other than i, w, s and o is had afterwards exactly if it was had before.
pub handle_user_mode-rights :
    (m : CaseMapping) (u : User) (target : Bytes) (params : List Bytes) (x : ℕ)
    → is_own x ≡ false
    → let u' = (handle_user_mode m u target params).0 in
      (has_mode b'o' u'.modes && not (has_mode b'o' u.modes) ≡ false)
      × (has_mode x u'.modes ≡ has_mode x u.modes)
unfolding handle_user_mode
handle_user_mode-rights m u target params x h = elim (Bool-cases (equal m target u.nick)) [
  | inl e ↦ rw e (own_modes-rights u params x h)
  | inr e ↦ rw e (ground arith, refl)
]
