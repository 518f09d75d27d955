-- ===== src/Server/Modes/Handler.antt =====
-- `handleMode`, `handleChannelMode` and the list queries of internal/server/handler_mode.go. An
-- outcome says what is sent, persisted and broadcast.
pub mod Guard
use ircat.Base.{
  ℕ, Bool, true, false, not, ◌||◌, Option, none, some, List, [], ◌∷◌, ◌==◌, if◌then◌else◌, Bytes,
}
use ircat.Base.Int.{ℤ}
use ircat.State.Membership.{is_op}
use ircat.State.Channel.{Channel, Masks, membership}
use ircat.State.Channel.Modes.{mode_string}
use ircat.State.World.{World, User, is_empty, find_channel, store_channel}
use ircat.Server.Persistence.{ChannelRecord, persisted}
use ircat.Server.UserModes.{UserModeReply, handle_user_mode}
use ircat.Server.Modes.{Applied, apply_channel_modes}

unfoldable pub is_channel_name : Bytes → Bool
is_channel_name [] = false
is_channel_name (c ∷ s) =
    if c == b'#' || c == b'&'
    then true
    else if c == b'+' || c == b'!'
    then not (is_empty s)
    else false

abbrev pub is_modeless_channel : Bytes → Bool
is_modeless_channel [] = false
is_modeless_channel (c ∷ _) = c == b'+'

-- the lists that a query can name
pub data ListMode : Type 0 where
  bans exceptions invexes quiets : ListMode

abbrev pub list_letter : ℕ → Option ListMode
list_letter c =
    if c == b'b'
    then some ListMode.bans
    else if c == b'e'
    then some ListMode.exceptions
    else if c == b'I'
    then some ListMode.invexes
    else if c == b'q'
    then some ListMode.quiets
    else none

-- `isListQueryMode`, with the list that it names
unfoldable pub list_query : Bytes → Option ListMode
list_query (c ∷ []) = list_letter c
list_query (c ∷ d ∷ []) = if c == b'+' then list_letter d else none
list_query _ = none

abbrev pub masks_of : ListMode → Channel → Masks
masks_of ListMode.bans c = c.bans
masks_of ListMode.exceptions c = c.exceptions
masks_of ListMode.invexes c = c.invexes
masks_of ListMode.quiets c = c.quiets

pub data ModeOutcome : Type 0 where
  not_registered need_more_params no_such_channel : ModeOutcome
  current : Bytes → Bytes → List Bytes → ℤ → ModeOutcome
  no_modes_supported : ModeOutcome
  listed : ListMode → Masks → ModeOutcome
  not_operator : ModeOutcome
  only_unknown : Bytes → ModeOutcome
  changed : Bytes → ChannelRecord → List Bytes → ModeOutcome
  of_user : UserModeReply → ModeOutcome

-- what follows on `applyChannelModes`
abbrev pub announced : Applied → ModeOutcome
announced a =
    if is_empty a.changes
    then ModeOutcome.only_unknown a.bad_chars
    else ModeOutcome.changed a.bad_chars (persisted a.channel)
        (a.channel.name ∷ a.changes ∷ a.params)

abbrev pub mutate : World → ℤ → User → Bytes → Channel → List Bytes → World × ModeOutcome
mutate w now u name ch params =
    let a = apply_channel_modes w now ch params in
    if not (is_op (membership ch u.id))
    then (w, ModeOutcome.not_operator)
    else (store_channel w name a.channel, announced a)

abbrev pub query_or_mutate :
    World → ℤ → User → Bytes → Channel → List Bytes → Option ListMode → World × ModeOutcome
query_or_mutate w now u name ch params (some l) = (w, ModeOutcome.listed l (masks_of l ch))
query_or_mutate w now u name ch params none = mutate w now u name ch params

-- a list query stands alone
abbrev pub single_query : List Bytes → Option ListMode
single_query (s ∷ []) = list_query s
single_query _ = none

abbrev pub mode_of_channel : World → ℤ → User → Bytes → Channel → List Bytes → World × ModeOutcome
mode_of_channel w now u name ch [] =
    let (modes, params) = mode_string ch in
    (w, ModeOutcome.current ch.name modes params ch.created_at)
mode_of_channel w now u name ch (s ∷ args) =
    if is_modeless_channel ch.name
    then (w, ModeOutcome.no_modes_supported)
    else query_or_mutate w now u name ch (s ∷ args) (single_query (s ∷ args))

abbrev pub mode_of_found :
    World → ℤ → User → Bytes → List Bytes → Option Channel → World × ModeOutcome
mode_of_found w now u name params none = (w, ModeOutcome.no_such_channel)
mode_of_found w now u name params (some ch) = mode_of_channel w now u name ch params

unfoldable pub handle_channel_mode : World → ℤ → User → Bytes → List Bytes → World × ModeOutcome
unfolding list_query
handle_channel_mode w now u name params = mode_of_found w now u name params (find_channel w name)

-- `handleMode` of a user `u`; the second result is the user, whose own modes may change
unfoldable pub handle_mode : World → ℤ → User → List Bytes → World × User × ModeOutcome
unfolding is_channel_name handle_channel_mode
handle_mode w now u [] =
    if not u.registered
    then (w, u, ModeOutcome.not_registered)
    else (w, u, ModeOutcome.need_more_params)
handle_mode w now u (target ∷ params) =
    let (w', of_channel) = handle_channel_mode w now u target params in
    let (u', reply) = handle_user_mode w.mapping u target params in
    if not u.registered
    then (w, u, ModeOutcome.not_registered)
    else if is_channel_name target
    then (w', u, of_channel)
    else (w, u', ModeOutcome.of_user reply)
