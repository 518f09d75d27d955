-- ===== src/State/Membership.antt =====
-- `Membership` of internal/state/channel.go: the flags of a channel member, bits of a `uint8`.
pub mod Flags
use Prim.Native.Nat.{bit_and, bit_xor}
use ircat.Base.{ℕ, Bool, not, ◌||◌, [], ◌∷◌, ◌++◌, ◌==◌, if◌then◌else◌, Bytes}

abbrev pub Membership : Type 0
Membership = ℕ

abbrev pub member_op : Membership
member_op = 1

abbrev pub member_voice : Membership
member_voice = 2

abbrev pub member_creator : Membership
member_creator = 4

-- Go's `a &^ b` on `uint8`.
abbrev pub and_not : ℕ → ℕ → ℕ
and_not a b = bit_and a (bit_xor b 255)

unfoldable pub is_op : Membership → Bool
is_op m = not (bit_and m member_op == 0) || not (bit_and m member_creator == 0)

unfoldable pub is_voice : Membership → Bool
is_voice m = not (bit_and m member_voice == 0)

unfoldable pub is_creator : Membership → Bool
is_creator m = not (bit_and m member_creator == 0)

unfoldable pub prefix : Membership → Bytes
unfolding is_creator is_op is_voice
prefix m =
    if is_creator m
    then b'!' ∷ []
    else if is_op m
    then b'@' ∷ []
    else if is_voice m
    then b'+' ∷ []
    else []

unfoldable pub multi_prefix : Membership → Bytes
unfolding is_creator is_voice
multi_prefix m =
    let b : Bytes = [] in
    let b = if is_creator m then b ++ b'!' ∷ [] else b in
    let b = if not (bit_and m member_op == 0) then b ++ b'@' ∷ [] else b in
    if is_voice m then b ++ b'+' ∷ [] else b
