-- ===== src/Protocol/Tags/RoundTrip.antt =====
-- Written tags are parsed back.
use ircat.Base.{
  ℕ, ◌≡◌, refl, ap, ◌∙◌, ◌≢◌, true, false, [], ◌∷◌, ◌++◌, ◌==◌, All, Bytes, bytes_has_eq,
}
use ircat.Base.GoMap.{GoMap, put, Distinct}
use ircat.Base.GoMap.Copy.{put_all, put_all-nil}
use ircat.Protocol.Message.{ok}
use ircat.Protocol.Text.{split, no_bytes}
use ircat.Protocol.Tags.{
  unescape_tag_value, escape_tag_value, key_and_raw, parse_tag, parse_each, parse_tags, written_tag,
  write_tags,
}
use ircat.Protocol.Tags.Escape.{unescape-escape, ends_tag, any-escape_tag_value}
use ircat.Protocol.Tags.Pieces.{
  Avoids, Avoids-append, Avoids-any, cut_at, cut-none, split_at, split_none,
}

-- A key that survives the wire: not empty, and without the bytes that end it.
pub record IsKey (k : Bytes) : Type 0 where
  pub full : no_bytes k ≡ false
  pub no_equals : Avoids b'=' k
  pub no_semicolon : Avoids b';' k
  pub no_space : Avoids b' ' k

abbrev pub HasKeys : GoMap Bytes Bytes → Type 0
HasKeys = All (λ t. IsKey t.0)

written_tag-Avoids :
    (c : ℕ) (k v : Bytes)
    → ends_tag c ≡ true
    → (b'=' == c) ≡ false
    → Avoids c k
    → Avoids c (written_tag k v)
written_tag-Avoids c k [] hit ne a = a
written_tag-Avoids c k (x ∷ v) hit ne a =
    Avoids-append c k _ a (ne, Avoids-any c ends_tag _ hit (any-escape_tag_value (x ∷ v)))

written_tag-full : (k v : Bytes) → no_bytes k ≡ false → no_bytes (written_tag k v) ≡ false
written_tag-full [] v h = cc
written_tag-full (x ∷ k) [] h = refl
written_tag-full (x ∷ k) (y ∷ v) h = refl

key_and_raw-written_tag :
    (k v : Bytes)
    → Avoids b'=' k
    → (r : Bytes) × (key_and_raw (written_tag k v) ≡ (k, r)) × (unescape_tag_value r ≡ v)
key_and_raw-written_tag k [] a =
    ([], rw (cut-none b'=' k a, key_and_raw), unfold unescape_tag_value in refl)
key_and_raw-written_tag k (x ∷ v) a = (
  escape_tag_value (x ∷ v),
  rw (cut_at b'=' k (escape_tag_value (x ∷ v)) a, key_and_raw),
  unescape-escape (x ∷ v),
)

parse_tag-written_tag :
    (k v : Bytes) (out : GoMap Bytes Bytes)
    → IsKey k
    → parse_tag (written_tag k v) out ≡ ok (put k v out)
unfolding parse_tag
parse_tag-written_tag k v out h =
    let (r, parts, value) = key_and_raw-written_tag k v h.no_equals in
    let full = written_tag-full k v h.full in rw (parts, full, h.full, value)

parse_each-written :
    (t : GoMap Bytes Bytes) (k v : Bytes) (out : GoMap Bytes Bytes)
    → IsKey k
    → HasKeys t
    → parse_each (split b';' (write_tags ((k, v) ∷ t))) out ≡ ok (put_all out ((k, v) ∷ t))
unfolding parse_each write_tags
parse_each-written [] k v out hk ht = rw (
  split_none b';' (written_tag k v) (written_tag-Avoids b';' k v refl refl hk.no_semicolon),
  parse_tag-written_tag k v out hk,
)
parse_each-written ((j, w) ∷ t) k v out hk ht =
    rw
      (
        split_at b';' (written_tag k v) (write_tags ((j, w) ∷ t))
            (written_tag-Avoids b';' k v refl refl hk.no_semicolon),
        parse_tag-written_tag k v out hk,
      )
      (parse_each-written t j w (put k v out) ht.0 ht.1)

full-append : (a b : Bytes) → no_bytes a ≡ false → no_bytes (a ++ b) ≡ false
full-append [] b h = cc
full-append (x ∷ a) b h = refl

write_tags-full :
    (t : GoMap Bytes Bytes) (k v : Bytes) → IsKey k → no_bytes (write_tags ((k, v) ∷ t)) ≡ false
unfolding write_tags
write_tags-full [] k v h = written_tag-full k v h.full
write_tags-full ((j, w) ∷ t) k v h = full-append (written_tag k v) _ (written_tag-full k v h.full)

pub write_tags-Avoids : (t : GoMap Bytes Bytes) → HasKeys t → Avoids b' ' (write_tags t)
unfolding write_tags
write_tags-Avoids [] h = tt
write_tags-Avoids ((k, v) ∷ []) h = written_tag-Avoids b' ' k v refl refl h.0.no_space
write_tags-Avoids ((k, v) ∷ (j, w) ∷ t) h =
    Avoids-append b' ' (written_tag k v) _ (written_tag-Avoids b' ' k v refl refl h.0.no_space)
      (refl, write_tags-Avoids ((j, w) ∷ t) h.1)

-- Tags with legal, distinct keys, one at least, are read back by parseTags from what is written of
-- them.
pub parse_tags-write_tags :
    (t : GoMap Bytes Bytes) → t ≢ [] → HasKeys t → Distinct t → parse_tags (write_tags t) ≡ ok t
unfolding parse_tags
parse_tags-write_tags [] ne h d = absurd (ne refl)
parse_tags-write_tags ((k, v) ∷ t) ne h d =
    rw (write_tags-full t k v h.0)
      (parse_each-written t k v [] h.0 h.1 ∙ ap ok (put_all-nil ((k, v) ∷ t) d))
