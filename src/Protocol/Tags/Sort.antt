-- ===== src/Protocol/Tags/Sort.antt =====
-- The encoder's sort of the keys changes nothing that a reader of the map sees.
use ircat.Base.{
  ◌≡◌, refl, ap, ◌∙◌, ◌≢◌, inl, inr, none, some, [], ◌∷◌, arith, if◌then◌else◌, Bool-cases, Bytes,
  bytes_eq, bytes_eq_iff, bytes_has_eq,
}
use ircat.Base.GoMap.{GoMap, get, Distinct}
use ircat.Protocol.Tags.{bytes_leb, insert_tag, sort_tags}
use ircat.Protocol.Tags.RoundTrip.{IsKey, HasKeys}

-- Sorting the keys keeps the tags: their lookups, their keys' form, and that keys are distinct.
get-insert_tag :
    (k v j : Bytes) (t : GoMap Bytes Bytes)
    → get k t ≡ none
    → get j (insert_tag k v t) ≡ (if bytes_eq k j then some v else get j t)
unfolding insert_tag get
get-insert_tag k v j [] h = refl
get-insert_tag k v j ((i, w) ∷ t) h =
    ground (arith, get-insert_tag k v j t, bytes_eq_iff i k, bytes_eq_iff i j, bytes_eq_iff k j)

HasKeys-insert_tag :
    (k v : Bytes) (t : GoMap Bytes Bytes) → IsKey k → HasKeys t → HasKeys (insert_tag k v t)
unfolding insert_tag
HasKeys-insert_tag k v [] hk h = (hk, tt)
HasKeys-insert_tag k v ((j, w) ∷ t) hk h = elim (Bool-cases (bytes_leb k j)) [
  | inl e ↦ rw e (hk, h)
  | inr e ↦ rw e (h.0, HasKeys-insert_tag k v t hk h.1)
]

Distinct-insert_tag :
    (k v : Bytes) (t : GoMap Bytes Bytes)
    → get k t ≡ none
    → Distinct t
    → Distinct (insert_tag k v t)
unfolding insert_tag get
Distinct-insert_tag k v [] h d = (refl, tt)
Distinct-insert_tag k v ((j, w) ∷ t) h d =
    ground
      (arith, get-insert_tag k v j t, Distinct-insert_tag k v t, bytes_eq_iff j k, bytes_eq_iff k j)

pub HasKeys-sort_tags : (t : GoMap Bytes Bytes) → HasKeys t → HasKeys (sort_tags t)
unfolding sort_tags
HasKeys-sort_tags [] h = tt
HasKeys-sort_tags ((k, v) ∷ t) h = HasKeys-insert_tag k v _ h.0 (HasKeys-sort_tags t h.1)

-- Sorting tags with distinct keys changes the value of no key.
pub get-sort_tags : (j : Bytes) (t : GoMap Bytes Bytes) → Distinct t → get j (sort_tags t) ≡ get j t
unfolding sort_tags get
get-sort_tags j [] d = refl
get-sort_tags j ((k, v) ∷ t) d =
    get-insert_tag k v j (sort_tags t) (get-sort_tags k t d.1 ∙ d.0)
    ∙ ap (λ r. if bytes_eq k j then some v else r) (get-sort_tags j t d.1)

pub Distinct-sort_tags : (t : GoMap Bytes Bytes) → Distinct t → Distinct (sort_tags t)
unfolding sort_tags
Distinct-sort_tags [] d = tt
Distinct-sort_tags ((k, v) ∷ t) d =
    Distinct-insert_tag k v _ (get-sort_tags k t d.1 ∙ d.0) (Distinct-sort_tags t d.1)

insert_tag-ne-nil : (k v : Bytes) (t : GoMap Bytes Bytes) → insert_tag k v t ≢ []
unfolding insert_tag
insert_tag-ne-nil k v [] h = cc
insert_tag-ne-nil k v ((j, w) ∷ t) h = ground arith

pub sort_tags-ne-nil : (e : Bytes × Bytes) (t : GoMap Bytes Bytes) → sort_tags (e ∷ t) ≢ []
unfolding sort_tags
sort_tags-ne-nil (k, v) t = insert_tag-ne-nil k v (sort_tags t)
