-- ===== src/Protocol/Message.antt =====
-- internal/protocol/message.go: the message, its limits, and the errors of parser and encoder.
use ircat.Base.{
  ℕ, ◌≡◌, refl, ◌⊎◌, inl, inr, Bool, true, false, not, ◌&&◌, Option, none, some, List, [], ◌∷◌,
  arith, leb, ◌==◌, if◌then◌else◌, length, all, Bytes, bytes_has_eq,
}
use ircat.Base.GoMap.{GoMap, put}

abbrev pub max_message_bytes : ℕ
max_message_bytes = 512

abbrev pub max_params : ℕ
max_params = 15

pub data ProtocolError : Type 0 where
  empty too_long too_many_params bad_command bad_tags : ProtocolError

pub data Result {ℓ} (A : Type ℓ) : Type ℓ where
  ok : A → Result A
  err : ProtocolError → Result A

-- `if err != nil { return err }` behind a call, with and without a value
infixl 5 ◌>>◌ ◌>>=◌
abbrev pub ◌>>◌ {ℓ} : {C : Type ℓ} → Result (Unit {0}) → Result C → Result C
err e >> next = err e
ok done >> next = next

abbrev pub ◌>>=◌ {ℓ κ} : {B : Type ℓ} {C : Type κ} → Result B → (B → Result C) → Result C
err e >>= next = err e
ok b >>= next = next b

pub Result-cases {ℓ} :
    {A : Type ℓ} (r : Result A) → ((a : A) × (r ≡ ok a)) ⊎ ((e : ProtocolError) × (r ≡ err e))
Result-cases (ok a) = inl (a, refl)
Result-cases (err e) = inr (e, refl)

abbrev pub refuse_if : Bool → ProtocolError → Result (Unit {0})
refuse_if true e = err e
refuse_if false e = ok tt

-- What a chain of results that succeeds has gone through.
module _ {ℓ} {A : Type ℓ} where
  pub ok-injective : {a b : A} → ok a ≡ ok b → a ≡ b
  ok-injective h = ground arith

  pub err-ok : {e : ProtocolError} {a : A} → ¬ (err e ≡ ok a)
  err-ok h = ground arith

  pub refuse_if-ok :
      (b : Bool) (e : ProtocolError) (k : Result A) (a : A)
      → refuse_if b e >> k ≡ ok a
      → (b ≡ false) × (k ≡ ok a)
  refuse_if-ok true e k a h = absurd (ground arith)
  refuse_if-ok false e k a h = (refl, h)

  pub bind-ok {κ} :
      {B : Type κ} (r : Result A) (f : A → Result B) (b : B)
      → r >>= f ≡ ok b
      → (a : A) × (r ≡ ok a) × (f a ≡ ok b)
  bind-ok (ok a) f b h = (a, refl, h)
  bind-ok (err e) f b h = absurd (ground arith)

-- A nil map of tags is the empty one: the program reads it only by `len`, `range` and a copy.
pub record Message : Type 0 where
  pub tags : GoMap Bytes Bytes
  pub prefix : Bytes
  pub command : Bytes
  pub params : List Bytes

unfoldable pub is_digit : ℕ → Bool
is_digit c = leb b'0' c && leb c b'9'

unfoldable pub numeric : Message → Bool
unfolding is_digit all
numeric m = if not (length m.command == 3) then false else all is_digit m.command

unfoldable pub last_param : List Bytes → Option Bytes
last_param [] = none
last_param (p ∷ []) = some p
last_param (p ∷ q ∷ ps) = last_param (q ∷ ps)

unfoldable pub trailing : Message → Option Bytes
unfolding last_param
trailing m = last_param m.params

unfoldable pub with_tag : Message → Bytes → Bytes → Message
with_tag m key value = record m { tags = put key value m.tags }
