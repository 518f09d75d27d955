-- ===== src/Server/Registration/Nicknames.antt =====
-- The nicknames that pass `validNickname`.
use ircat.Base.{ℕ, ◌≡◌, refl, true, false, [], ◌∷◌, arith, all, Bytes}
use ircat.Base.Int.{ℤ}
use ircat.State.World.{is_empty}
use ircat.Server.Registration.{is_nick_byte, valid_nickname}
use ircat.Server.Registration.Commands.{is_space, is_blank}

-- A valid nickname is no blank text, so that the first test of NICK never hides the second.
not_space : (c : ℕ) → is_nick_byte c ≡ true → is_space c ≡ false
unfolding is_nick_byte is_space
not_space c h = ground arith

pub valid-not_blank : (s : Bytes) (max : ℤ) → valid_nickname s max ≡ true → is_blank s ≡ false
unfolding valid_nickname is_blank all
valid-not_blank [] max h = cc
valid-not_blank (c ∷ s) max h = ground (arith, not_space c)

pub valid-not_empty : (s : Bytes) (max : ℤ) → valid_nickname s max ≡ true → is_empty s ≡ false
unfolding valid_nickname
valid-not_empty [] max h = cc
valid-not_empty (c ∷ s) max h = refl
