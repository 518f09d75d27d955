-- ===== src/Server/Modes/Creator/Parts.antt =====
-- What one operation on a channel keeps.
use ircat.Base.{
  ℕ, ◌<◌, ◌≡◌, refl, ◌∙◌, ◌⊎◌, inl, inr, Bool, true, false, arith, if◌then◌else◌, Bytes, nat_eq,
}
use Prim.Native.Nat.{bit_or}
use ircat.Base.GoMap.{get-put}
use ircat.Base.Int.{ℤ}
use ircat.State.Membership.{Membership, member_op, member_voice, is_creator}
use ircat.State.Membership.Flags.{is_creator-granted, cleared}
use ircat.State.Channel.{Channel, UserId, membership, is_member, add_membership, remove_membership}
use ircat.State.Channel.Members.{
  IsSound, add_membership-IsSound, remove_membership-IsSound, remove_membership-is_creator,
}
use ircat.State.Channel.Modes.{set_bool_mode, set_key, set_limit}
use ircat.State.Channel.Masks.{
  add_ban, remove_ban, add_exception, remove_exception, add_invex, remove_invex, add_quiet,
  remove_quiet,
}

pub record Kept (c c' : Channel) : Type 0 where
  pub sound : IsSound c'
  pub creators : (j : UserId) → is_creator (membership c' j) ≡ is_creator (membership c j)
  pub members : (j : UserId) → is_member c' j ≡ is_member c j
  pub same_name : c'.name ≡ c.name

pub Kept-refl : (c : Channel) → IsSound c → Kept c c
Kept-refl c s = record { sound = s; creators = λ j. refl; members = λ j. refl; same_name = refl }

pub Kept-trans : (a b c : Channel) → Kept a b → Kept b c → Kept a c
Kept-trans a b c f g = record {
  sound = g.sound;
  creators = λ j. g.creators j ∙ f.creators j;
  members = λ j. g.members j ∙ f.members j;
  same_name = g.same_name ∙ f.same_name;
}

-- An operation on another part of the channel.
abbrev pub Elsewhere : Channel → Channel → Type 0
Elsewhere c c' = (c'.members ≡ c.members) × (c'.name ≡ c.name)

pub Elsewhere-Kept : (c c' : Channel) → IsSound c → Elsewhere c c' → Kept c c'
Elsewhere-Kept c c' s e = record {
  sound = record { bytes = λ j. rw e.0 (s.bytes j); distinct = rw e.0 s.distinct };
  creators = λ j. rw e.0 refl;
  members = λ j. rw e.0 refl;
  same_name = e.1;
}

pub set_bool_mode-Elsewhere :
    (c : Channel) (mc : ℕ) (on : Bool) → Elsewhere c (set_bool_mode c mc on).0
unfolding set_bool_mode
set_bool_mode-Elsewhere c mc on = (ground arith, ground arith)

pub set_key-Elsewhere : (c : Channel) (k : Bytes) → Elsewhere c (set_key c k).0
unfolding set_key
set_key-Elsewhere c k = (ground arith, ground arith)

pub set_limit-Elsewhere : (c : Channel) (n : ℤ) → Elsewhere c (set_limit c n).0
unfolding set_limit
set_limit-Elsewhere c n = (ground arith, ground arith)

module _ (now : ℤ) (c : Channel) (mask : Bytes) where
  pub ban-Elsewhere :
      (on : Bool) → Elsewhere c (if on then add_ban c mask now else remove_ban c mask).0
  unfolding add_ban remove_ban
  ban-Elsewhere true = (refl, refl)
  ban-Elsewhere false = (refl, refl)

  pub exception-Elsewhere :
      (on : Bool) → Elsewhere c (if on then add_exception c mask now else remove_exception c mask).0
  unfolding add_exception remove_exception
  exception-Elsewhere true = (refl, refl)
  exception-Elsewhere false = (refl, refl)

  pub invex-Elsewhere :
      (on : Bool) → Elsewhere c (if on then add_invex c mask now else remove_invex c mask).0
  unfolding add_invex remove_invex
  invex-Elsewhere true = (refl, refl)
  invex-Elsewhere false = (refl, refl)

  pub quiet-Elsewhere :
      (on : Bool) → Elsewhere c (if on then add_quiet c mask now else remove_quiet c mask).0
  unfolding add_quiet remove_quiet
  quiet-Elsewhere true = (refl, refl)
  quiet-Elsewhere false = (refl, refl)

-- The flags that MODE gives and takes.
abbrev pub IsGrantable : Membership → Type 0
IsGrantable f = (f ≡ member_op) ⊎ (f ≡ member_voice)

granted-is_creator : (m f : ℕ) → IsGrantable f → m < 256 → is_creator (bit_or m f) ≡ is_creator m
granted-is_creator m f (inl e) h = rw e (is_creator-granted m h).0
granted-is_creator m f (inr e) h = rw e (is_creator-granted m h).1

grantable-lt : (f : ℕ) → IsGrantable f → f < 256
grantable-lt f (inl e) = omega (arith, e)
grantable-lt f (inr e) = omega (arith, e)

pub add_membership-Kept :
    (c : Channel) (id : UserId) (f : Membership)
    → IsGrantable f
    → IsSound c
    → Kept c (add_membership c id f).0
add_membership-Kept c id f g s = record {
  sound = add_membership-IsSound c id f (grantable-lt f g) s;
  creators = λ j.
      unfold add_membership in
      ground (
        arith,
        get-put id j (bit_or (membership c id) f) c.members,
        granted-is_creator (membership c id) f g (s.bytes id),
      );
  members = λ j.
      unfold add_membership in ground (arith, get-put id j (bit_or (membership c id) f) c.members);
  same_name = unfold add_membership in ground arith;
}

pub remove_membership-Kept :
    (c : Channel) (id : UserId) (f : Membership)
    → IsGrantable f
    → IsSound c
    → Kept c (remove_membership c id f).0
remove_membership-Kept c id f g s = record {
  sound = remove_membership-IsSound c id f (grantable-lt f g) s;
  creators = λ j. remove_membership-is_creator c id j f (grantable-lt f g) s;
  members = λ j.
      unfold remove_membership in
      ground (arith, get-put id j (cleared (membership c id) f) c.members);
  same_name = unfold remove_membership in ground arith;
}
