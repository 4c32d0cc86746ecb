-- ===== src/Store/Snapshot/Same.antt =====
-- The columns that CreateSnapshot of internal/state/snapshot.go writes for a message, against those of
-- the message's row. NULL stands for the empty text and for 0.
use agent_state.Common.{
  String, ◌≡◌, refl, sym, subst, ◌⊎◌, inl, inr, Option, none, some, [], ◌∷◌, value_or, is_some,
  ◌||◌, false, Bool-cases, arith,
}
use agent_state.Common.Int.{ℤ, pos}
use agent_state.Errors.{Result, ok, err, ok-injective, Result-cases}
use agent_state.Message.{Metadata}
use agent_state.Message.Columns.{
  Bytes, MapJson, MessageColumns, no_columns, decode_metadata, decode_image, decode_text,
  encode_metadata, encode_image, encode_text,
}
use agent_state.Message.Roundtrip.{ptr_back, nonzero_back}
use agent_state.Database.{Driver}
use agent_state.Database.Statements.{stored_columns}

abbrev pub text_of : Option String → String
text_of o = value_or o ""

abbrev pub number_of : Option ℤ → ℤ
number_of o = value_or o (pos 0)

-- The row has no image and the copy has none, or all columns of the image agree.
abbrev pub SameImage : MessageColumns → MessageColumns → Type 0
SameImage a b =
    ((a.tool_image_external_url ≡ none)
      × (a.tool_image_mime_type ≡ none)
      × (a.tool_image_detail ≡ none)
      × (b.tool_image_external_url ≡ none)
      × (b.tool_image_mime_type ≡ none)
      × (b.tool_image_detail ≡ none)
      × (b.tool_image_width_px ≡ none)
      × (b.tool_image_height_px ≡ none)
      × (b.tool_image_sha256 ≡ none))
    ⊎ ((text_of b.tool_image_external_url ≡ text_of a.tool_image_external_url)
        × (text_of b.tool_image_mime_type ≡ text_of a.tool_image_mime_type)
        × (b.tool_image_detail ≡ some (number_of a.tool_image_detail))
        × (number_of b.tool_image_width_px ≡ number_of a.tool_image_width_px)
        × (number_of b.tool_image_height_px ≡ number_of a.tool_image_height_px)
        × (text_of b.tool_image_sha256 ≡ text_of a.tool_image_sha256))

-- What the JSON of a row holds; NULL, and `null`, are no entries.
pub data Entries (json : MapJson) (column : Option Bytes) (m : Metadata) : Type 0 where
  absent : column ≡ none → m ≡ [] → Entries json column m
  present :
      (buf : Bytes) (read : Option Metadata)
      → column ≡ some buf
      → json.unmarshal buf ≡ ok read
      → m ≡ value_or read []
      → Entries json column m

-- The copy has the JSON of the same map, in the form in which the database keeps it, or NULL where
-- the map has no entries.
pub data Remarshalled (json : MapJson) (d : Driver) (m : Metadata) (column : Option Bytes)
    : Type 0 where
  no_entries : m ≡ [] → column ≡ none → Remarshalled json d m column
  entries :
      (buf kept : Bytes)
      → json.marshal m ≡ ok buf
      → d.store_json buf ≡ ok kept
      → column ≡ some kept
      → Remarshalled json d m column

-- The body of the row `a` is that of the copy `b`.
pub data SameBody (json : MapJson) (d : Driver) (a b : MessageColumns) : Type 0 where
  text_kept :
      (s : String)
      → a.body_text ≡ some s
      → text_of b.body_text ≡ s
      → b ≡ record no_columns { body_text = b.body_text }
      → SameBody json d a b
  tool_kept :
      (m : Metadata)
      → a.body_text ≡ none
      → b.body_text ≡ none
      → text_of b.tool_name ≡ text_of a.tool_name
      → text_of b.tool_call_id ≡ text_of a.tool_call_id
      → text_of b.tool_text_output ≡ text_of a.tool_text_output
      → SameImage a b
      → Entries json a.tool_metadata m
      → Remarshalled json d m b.tool_metadata
      → SameBody json d a b

pub text_back : (o : Option String) → text_of (encode_text (decode_text o)) ≡ text_of o
text_back none = refl
text_back (some s) = ptr_back s

none_of : {A : Type 0} (o : Option A) → is_some o ≡ false → o ≡ none
none_of none h = refl
none_of (some a) h = cc

-- The image that the row is decoded to, encoded again.
pub image_kept :
    (a : MessageColumns) (name call text : Option String)
    → SameImage a (
        encode_image
          (decode_image a)
          (record no_columns { tool_name = name; tool_call_id = call; tool_text_output = text }))
image_kept a name call text =
    elim (Bool-cases (
      is_some a.tool_image_external_url
      || is_some a.tool_image_mime_type
      || is_some a.tool_image_detail)) [
        | inl any ↦ rw any (
            inr (
              ptr_back (text_of a.tool_image_external_url),
              ptr_back (text_of a.tool_image_mime_type),
              refl,
              nonzero_back (number_of a.tool_image_width_px),
              nonzero_back (number_of a.tool_image_height_px),
              ptr_back (text_of a.tool_image_sha256),
            ))
        | inr without ↦ rw without (
            inl (
              none_of a.tool_image_external_url (ground arith),
              none_of a.tool_image_mime_type (ground arith),
              none_of a.tool_image_detail (ground arith),
              refl,
              refl,
              refl,
              refl,
              refl,
              refl,
            ))
      ]

module _ (json : MapJson) (d : Driver) where
  decoded-Entries :
      (o : Option Bytes) (r : Result (Option Metadata)) {m : Metadata}
      → (buf : Bytes) → o ≡ some buf
      → json.unmarshal buf ≡ r
      → decode_metadata json o ≡ ok m
      → Entries json o m
  decoded-Entries o (ok read) buf here e h = present buf read here e (ground arith)
  decoded-Entries o (err x) buf here e h = ground arith

  pub metadata-Entries :
      (o : Option Bytes) {m : Metadata} → decode_metadata json o ≡ ok m → Entries json o m
  metadata-Entries none h = absent refl (ground arith)
  metadata-Entries (some buf) h = decoded-Entries (some buf) (json.unmarshal buf) buf refl refl h

  pub unmarshalled-kept :
      (cols : MessageColumns) {kept : MessageColumns}
      → cols.tool_metadata ≡ none
      → stored_columns d cols ≡ ok kept
      → cols ≡ kept
  unmarshalled-kept cols h k = ok-injective (rw (h, stored_columns) at k)

  -- The metadata that is marshalled and kept, on columns that have none.
  pub metadata-Remarshalled :
      (m : Metadata) (base : MessageColumns) {sent kept : MessageColumns}
      → base.tool_metadata ≡ none
      → encode_metadata json (some m) base ≡ ok sent
      → stored_columns d sent ≡ ok kept
      → (kept ≡ record base { tool_metadata = kept.tool_metadata })
        × Remarshalled json d m kept.tool_metadata
  metadata-Remarshalled [] base {sent} {kept} h e k =
      let same : base ≡ kept =
        unmarshalled-kept base h
          (subst (λ z. stored_columns d z ≡ ok kept) (sym (ok-injective e)) k) in
      subst
        (λ (z : MessageColumns).
          (z ≡ record base { tool_metadata = z.tool_metadata })
          × Remarshalled json d [] z.tool_metadata)
        same (refl, no_entries refl h)
  metadata-Remarshalled (x ∷ m) base {sent} {kept} h e k =
      elim (Result-cases (json.marshal (x ∷ m))) [
        | inr (z, failed) ↦ ground arith
        | inl (buf, made) ↦
            let same : record base { tool_metadata = some buf } ≡ sent = ground arith in
            elim (Result-cases (d.store_json buf)) [
              | inr (z, refused) ↦
                  ground (arith, subst (λ y. stored_columns d y ≡ ok kept) (sym same) k)
              | inl (form, stored) ↦
                  let end : record base { tool_metadata = some form } ≡ kept = ok-injective (
                    rw (stored, stored_columns) at
                      (subst (λ y. stored_columns d y ≡ ok kept) (sym same) k)) in
                  subst
                    (λ (z : MessageColumns).
                      (z ≡ record base { tool_metadata = z.tool_metadata })
                      × Remarshalled json d (x ∷ m) z.tool_metadata)
                    end (refl, entries buf form made stored refl)
            ]
      ]
