-- ===== src/State/Membership/Flags.antt =====
-- Facts on the flag bytes, each checked over all values of a byte.
use Prim.Native.Nat.{bit_or}
use ircat.Base.{
  ℕ, zero, suc, ◌<◌, ◌≡◌, refl, sym, Bool, true, false, not, ◌&&◌, arith, ltb, if◌then◌else◌, take,
  bytes_eq, bytes_eq_iff,
}
use ircat.State.Membership.{
  Membership, member_op, member_voice, member_creator, and_not, is_op, is_voice, is_creator, prefix,
  multi_prefix,
}

-- A test of every number under a bound, by evaluation.
each_under : (ℕ → Bool) → ℕ → Bool
each_under p zero = true
each_under p (suc n) = if p n then each_under p n else false

under-each : (p : ℕ → Bool) (n x : ℕ) → x < n → each_under p n ≡ true → p x ≡ true
unfolding each_under
under-each p zero x lt tested = absurd (omega arith)
under-each p (suc n) x lt tested = ground (arith, under-each p n x)

abbrev same : Bool → Bool → Bool
same true b = b
same false b = not b

same-eq : (a b : Bool) → same a b ≡ true → a ≡ b
same-eq true b h = sym h
same-eq false b h = ground arith

-- `cur &^ (flags &^ MemberCreator)`, as `RemoveMembership` computes it
abbrev pub cleared : Membership → Membership → Membership
cleared cur flags = and_not cur (and_not flags member_creator)

-- A law of two bytes, tried on all of them.
byte_law :
    (p : ℕ → ℕ → Bool)
    → each_under (λ f. each_under (p f) 256) 256 ≡ true
    → (f m : ℕ) → f < 256
    → m < 256
    → p f m ≡ true
byte_law p table f m hf hm =
    under-each (p f) 256 m hm (under-each (λ f. each_under (p f) 256) 256 f hf table)

creator_law : ℕ → ℕ → Bool
creator_law f m = same (is_creator (cleared m f)) (is_creator m)

creator_table : each_under (λ f. each_under (creator_law f) 256) 256 ≡ true
unfolding each_under creator_law is_creator
creator_table = refl

-- Clearing flags the way `RemoveMembership` does never clears the creator bit.
pub is_creator-cleared : (m f : ℕ) → m < 256 → f < 256 → is_creator (cleared m f) ≡ is_creator m
is_creator-cleared m f hm hf =
    same-eq _ _ (unfold creator_law in byte_law creator_law creator_table f m hf hm)

byte_closed : ℕ → ℕ → Bool
byte_closed f m = ltb (bit_or m f) 256 && ltb (cleared m f) 256

byte_closed_table : each_under (λ f. each_under (byte_closed f) 256) 256 ≡ true
unfolding each_under byte_closed
byte_closed_table = refl

-- The flags stay a byte.
pub flags-lt : (m f : ℕ) → m < 256 → f < 256 → (bit_or m f < 256) × (cleared m f < 256)
flags-lt m f hm hf =
    let law : byte_closed f m ≡ true = byte_law byte_closed byte_closed_table f m hf hm in
    unfold byte_closed in ground arith

-- What granting and taking the two flags that MODE sets does to each flag.
grant_law : ℕ → Bool
grant_law m =
    is_op (bit_or m member_op)
    && same (is_voice (bit_or m member_op)) (is_voice m)
    && is_voice (bit_or m member_voice)
    && same (is_op (bit_or m member_voice)) (is_op m)

take_law : ℕ → Bool
take_law m =
    same (is_op (cleared m member_op)) (is_creator m)
    && same (is_voice (cleared m member_op)) (is_voice m)
    && not (is_voice (cleared m member_voice))
    && same (is_op (cleared m member_voice)) (is_op m)

grant_table : each_under grant_law 256 ≡ true
unfolding each_under grant_law is_op is_voice is_creator
grant_table = refl

take_table : each_under take_law 256 ≡ true
unfolding each_under take_law is_op is_voice is_creator
take_table = refl

-- On every byte of flags, granting op or voice gives that flag and leaves the other as it was.
pub grant_flags :
    (m : ℕ)
    → m < 256
    → (is_op (bit_or m member_op) ≡ true)
      × (is_voice (bit_or m member_op) ≡ is_voice m)
      × (is_voice (bit_or m member_voice) ≡ true)
      × (is_op (bit_or m member_voice) ≡ is_op m)
grant_flags m h =
    let law : grant_law m ≡ true = under-each grant_law 256 m h grant_table in
    unfold grant_law in ground arith

-- On every byte of flags, taking op leaves op rights exactly to the creator and voice as it was,
-- and taking voice ends voice and leaves op rights as they were.
pub take_flags :
    (m : ℕ)
    → m < 256
    → (is_op (cleared m member_op) ≡ is_creator m)
      × (is_voice (cleared m member_op) ≡ is_voice m)
      × (is_voice (cleared m member_voice) ≡ false)
      × (is_op (cleared m member_voice) ≡ is_op m)
take_flags m h =
    let law : take_law m ≡ true = under-each take_law 256 m h take_table in
    unfold take_law in ground arith

prefix_law : ℕ → Bool
prefix_law m = bytes_eq (take 1 (multi_prefix m)) (prefix m)

prefix_table : each_under prefix_law 256 ≡ true
unfolding each_under prefix_law prefix multi_prefix bytes_eq
prefix_table = refl

-- The single prefix is the first of the full prefix list, for every byte of flags.
pub prefix-eq-take : (m : ℕ) → m < 256 → prefix m ≡ take 1 (multi_prefix m)
prefix-eq-take m h =
    let law : prefix_law m ≡ true = under-each prefix_law 256 m h prefix_table in
    sym ((bytes_eq_iff (take 1 (multi_prefix m)) (prefix m)).0 (unfold prefix_law in law))

keeps_creator_law : ℕ → Bool
keeps_creator_law m =
    same (is_creator (bit_or m member_op)) (is_creator m)
    && same (is_creator (bit_or m member_voice)) (is_creator m)

keeps_creator_table : each_under keeps_creator_law 256 ≡ true
unfolding each_under keeps_creator_law is_creator
keeps_creator_table = refl

-- Granting op or voice grants no creator bit.
pub is_creator-granted :
    (m : ℕ)
    → m < 256
    → (is_creator (bit_or m member_op) ≡ is_creator m)
      × (is_creator (bit_or m member_voice) ≡ is_creator m)
is_creator-granted m h =
    let law : keeps_creator_law m ≡ true =
      under-each keeps_creator_law 256 m h keeps_creator_table in
    unfold keeps_creator_law in ground arith
