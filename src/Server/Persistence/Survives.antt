-- ===== src/Server/Persistence/Survives.antt =====
-- What a channel record keeps of a channel over a restart.
use ircat.Base.{◌≡◌, refl, ap, ◌∙◌, false, none, some, [], ◌∷◌, arith, Bytes, bytes_has_eq}
use ircat.Base.GoMap.{get, put, Distinct}
use ircat.Base.GoMap.Copy.{put_all, put_all-nil}
use ircat.Base.Int.{ℤ}
use ircat.State.Casemap.{fold}
use ircat.State.Channel.{Channel, Masks, new_channel}
use ircat.State.Channel.Modes.{restore_state, copy_masks}
use ircat.State.Channel.Modes.Restore.{restore_modes-mode_string}
use ircat.State.World.{World, ensure_channel, store_channel, is_empty, find_channel}
use ircat.State.World.Channels.{find_channel-store_channel}
use ircat.Server.Persistence.{
  ban_records_from_map, put_records, ban_records_to_map, persisted, saved, restore_record,
}

copy_masks-put_all : (src dst : Masks) → copy_masks src dst ≡ put_all dst src
unfolding copy_masks
copy_masks-put_all [] dst = refl
copy_masks-put_all ((k, v) ∷ src) dst = copy_masks-put_all src (put k v dst)

put_records-put_all : (m out : Masks) → put_records (ban_records_from_map m) out ≡ put_all out m
unfolding put_records ban_records_from_map
put_records-put_all [] out = refl
put_records-put_all ((k, v) ∷ m) out = put_records-put_all m (put k v out)

-- A mask list, through the records and the copy.
masks_survive :
    (m : Masks) → Distinct m → copy_masks (ban_records_to_map (ban_records_from_map m)) [] ≡ m
masks_survive m d =
    ap (λ s. copy_masks s []) (put_records-put_all m [] ∙ put_all-nil m d)
    ∙ copy_masks-put_all m []
    ∙ put_all-nil m d

-- Every mask stands once in its list, as in every Go map.
pub record HasMasksOnce (c : Channel) : Type 0 where
  pub bans : Distinct c.bans
  pub exceptions : Distinct c.exceptions
  pub invexes : Distinct c.invexes
  pub quiets : Distinct c.quiets

restore_state-persisted :
    (ch c : Channel)
    → HasMasksOnce c
    → restore_state ch (saved (persisted c)) ≡ record c {
      name = ch.name;
      created_at = ch.created_at;
      members = ch.members;
      invites = ch.invites;
    }
unfolding restore_state persisted
restore_state-persisted ch c once =
    rw
      (
        masks_survive c.bans once.bans,
        masks_survive c.exceptions once.exceptions,
        masks_survive c.invexes once.invexes,
        masks_survive c.quiets once.quiets,
        restore_modes-mode_string c,
      )
      refl

absent :
    (w : World) (c : Channel)
    → is_empty c.name ≡ false
    → find_channel w c.name ≡ none
    → get (fold w.mapping c.name) w.by_channel ≡ none
unfolding find_channel
absent w c full h = ground arith

ensured_fresh :
    (w : World) (name : Bytes) (now : ℤ)
    → get (fold w.mapping name) w.by_channel ≡ none
    → (ensure_channel w name now).1 ≡ new_channel name now
unfolding ensure_channel
ensured_fresh w name now h = ground (arith, h)

restored :
    (w : World) (now : ℤ) (c : Channel)
    → get (fold w.mapping c.name) w.by_channel ≡ none
    → restore_record w now (persisted c)
      ≡ store_channel
          (ensure_channel w c.name now).0
          c.name
          (restore_state (new_channel c.name now) (saved (persisted c)))
unfolding restore_record persisted
restored w now c h =
    ap
      (λ ch.
        store_channel (ensure_channel w c.name now).0 c.name
          (restore_state ch (saved (persisted c))))
      (ensured_fresh w c.name now h)

-- For a channel with a name and with each mask listed once: the record that persistChannel writes,
-- restored into a world that has no channel of that name, gives the channel with the same topic,
-- key, limit, modes and mask lists, no members, no invites, and the time of the restore as its
-- creation.
pub restore_record-persisted :
    (w : World) (now : ℤ) (c : Channel)
    → HasMasksOnce c
    → is_empty c.name ≡ false
    → find_channel w c.name ≡ none
    → find_channel (restore_record w now (persisted c)) c.name
      ≡ some (record c { created_at = now; members = []; invites = [] })
unfolding new_channel
restore_record-persisted w now c once full h =
    ap (λ v. find_channel v c.name) (restored w now c (absent w c full h))
    ∙ find_channel-store_channel (ensure_channel w c.name now).0 c.name
        (restore_state (new_channel c.name now) (saved (persisted c))) full
    ∙ ap some (restore_state-persisted (new_channel c.name now) c once)
