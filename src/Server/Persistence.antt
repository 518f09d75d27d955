-- ===== src/Server/Persistence.antt =====
-- internal/server/persistence.go, on the `ChannelRecord` of internal/storage/storage.go. The store
-- itself is an interface to a database: what is modelled is the record that `persistChannel`
-- hands to it and what `restorePersistentChannels` does with the records that it lists.
pub mod Survives
use ircat.Base.{Option, List, [], ◌∷◌, Bytes, bytes_has_eq}
use ircat.Base.GoMap.{put}
use ircat.Base.Int.{ℤ}
use ircat.State.Channel.{Channel, Masks}
use ircat.State.Channel.Modes.{mode_string, Saved, restore_state}
use ircat.State.World.{World, ensure_channel, store_channel}

pub record BanRecord : Type 0 where
  pub mask : Bytes
  pub set_by : Bytes
  pub set_at : ℤ

-- The times of the record's own row are the store's.
pub record ChannelRecord : Type 0 where
  pub name : Bytes
  pub topic : Bytes
  pub topic_set_by : Bytes
  pub topic_set_at : Option ℤ
  pub mode_word : Bytes
  pub key : Bytes
  pub limit : ℤ
  pub bans : List BanRecord
  pub exceptions : List BanRecord
  pub invexes : List BanRecord
  pub quiets : List BanRecord

unfoldable pub ban_records_from_map : Masks → List BanRecord
ban_records_from_map [] = []
ban_records_from_map ((mask, at) ∷ m) =
    record { mask = mask; set_by = []; set_at = at } ∷ ban_records_from_map m

-- the loop of `banRecordsToMap`
unfoldable pub put_records : List BanRecord → Masks → Masks
put_records [] out = out
put_records (b ∷ l) out = put_records l (put b.mask b.set_at out)

abbrev pub ban_records_to_map : List BanRecord → Masks
ban_records_to_map l = put_records l []

-- the record that `persistChannel` writes
unfoldable pub persisted : Channel → ChannelRecord
unfolding ban_records_from_map
persisted c = record {
  name = c.name;
  topic = c.topic;
  topic_set_by = c.topic_set_by;
  topic_set_at = c.topic_set_at;
  mode_word = (mode_string c).0;
  key = c.key;
  limit = c.limit;
  bans = ban_records_from_map c.bans;
  exceptions = ban_records_from_map c.exceptions;
  invexes = ban_records_from_map c.invexes;
  quiets = ban_records_from_map c.quiets;
}

abbrev pub saved : ChannelRecord → Saved
saved rec = record {
  topic = rec.topic;
  topic_set_by = rec.topic_set_by;
  topic_set_at = rec.topic_set_at;
  mode_word = rec.mode_word;
  key = rec.key;
  limit = rec.limit;
  bans = ban_records_to_map rec.bans;
  exceptions = ban_records_to_map rec.exceptions;
  invexes = ban_records_to_map rec.invexes;
  quiets = ban_records_to_map rec.quiets;
}

-- one round of the loop of `restorePersistentChannels`
unfoldable pub restore_record : World → ℤ → ChannelRecord → World
restore_record w now rec =
    let (w', ch, _) = ensure_channel w rec.name now in
    store_channel w' rec.name (restore_state ch (saved rec))

unfoldable pub restore_persistent_channels : World → ℤ → List ChannelRecord → World
unfolding restore_record
restore_persistent_channels w now [] = w
restore_persistent_channels w now (rec ∷ recs) =
    restore_persistent_channels (restore_record w now rec) now recs
