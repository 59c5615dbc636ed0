-- ===== src/Media.antt =====
-- services/media-service/src/uploads/media-storage.service.ts, method by method. A text is the list of its code
-- units; the object store and its signatures are parameters.
pub mod Keys
use ceylon_events.Common.{
  ℕ, ◌*◌, Bool, true, false, not, ◌&&◌, ◌||◌, Option, none, some, List, [], ◌∷◌, ◌++◌, map, keep,
  ◌==◌, leb, or_else, if◌then◌else◌, codes, Action, ok, err, not_found, internal_error,
}

pub data MediaCategory : Type 0 where
  menu_photo event_banner payment_proof restaurant_cover : MediaCategory

pub data ContentType : Type 0 where
  jpeg png webp : ContentType

unfoldable pub category_text : MediaCategory → List ℕ
category_text menu_photo = codes "menu-photo"
category_text event_banner = codes "event-banner"
category_text payment_proof = codes "payment-proof"
category_text restaurant_cover = codes "restaurant-cover"

abbrev pub is_slash : ℕ → Bool
is_slash c = c == b'/' || c == b'\\'

-- `[\x00-\x1f\x7f]`
abbrev pub is_control : ℕ → Bool
is_control c = leb c 31 || c == 127

-- `.replace(/\.\./g, "_")`; `after_dot` says that a dot was read that is not yet written.
unfoldable pub replace_dots : Bool → List ℕ → List ℕ
replace_dots after_dot [] = if after_dot then b'.' ∷ [] else []
replace_dots after_dot (c ∷ s) =
    let rest = replace_dots (c == b'.' && not after_dot) s in
    if c == b'.'
    then (if after_dot then b'_' ∷ rest else rest)
    else (if after_dot then b'.' ∷ c ∷ rest else c ∷ rest)

-- What `trim` takes away: JavaScript's white space and line ends.
abbrev pub is_space : ℕ → Bool
is_space c =
    (leb 9 c && leb c 13)
    || c == 32
    || c == 160
    || c == 5760
    || (leb 8192 c && leb c 8202)
    || c == 8232
    || c == 8233
    || c == 8239
    || c == 8287
    || c == 12288
    || c == 65279

unfoldable pub trim_start : List ℕ → List ℕ
trim_start [] = []
trim_start (c ∷ s) = let rest = trim_start s in if is_space c then rest else c ∷ s

abbrev end_with : ℕ → List ℕ → List ℕ
end_with c [] = if is_space c then [] else c ∷ []
end_with c (d ∷ s) = c ∷ d ∷ s

unfoldable pub trim_end : List ℕ → List ℕ
trim_end [] = []
trim_end (c ∷ s) = end_with c (trim_end s)

unfoldable pub sanitized : List ℕ → List ℕ
sanitized file_name =
    let flat = map (λ c. if is_slash c then b'_' else c) file_name in
    trim_end (trim_start (replace_dots false (keep (λ c. not (is_control c)) flat)))

abbrev or_file : List ℕ → List ℕ
or_file [] = codes "file"
or_file (c ∷ s) = c ∷ s

unfoldable pub safe_name : List ℕ → List ℕ
safe_name file_name = or_file (sanitized file_name)

-- `uuid` is the text of `randomUUID()`.
unfoldable pub build_object_key : MediaCategory → List ℕ → List ℕ → List ℕ
build_object_key category uuid file_name =
    category_text category ++ (b'/' ∷ uuid ++ (b'-' ∷ safe_name file_name))

pub record UploadParams : Type 0 where
  pub file_name : List ℕ
  pub content_type : ContentType
  pub category : MediaCategory

pub record UploadUrl : Type 0 where
  pub upload_url : List ℕ
  pub public_url : List ℕ
  pub object_key : List ℕ

pub record Uploaded : Type 0 where
  pub object_key : List ℕ
  pub public_url : List ℕ
  pub size_bytes : ℕ

pub data Reason : Type 0 where
  not_uploaded : List ℕ → Reason

-- The object store: a signed URL for a key, a type and seconds to live; the length of an object, if it is
-- there and if it is told; and the store without an object, if the request goes through.
pub record Store (W : Type 0) : Type 0 where
  pub signed_url : List ℕ → ContentType → ℕ → List ℕ
  pub head_object : List ℕ → W → Option (Option ℕ)
  pub delete_object : List ℕ → W → Option W

abbrev upload_url_ttl_seconds : ℕ
upload_url_ttl_seconds = 5 * 60

module _ {W : Type 0} (store : Store W) (public_base_url : List ℕ) where
  abbrev to_public_url : List ℕ → List ℕ
  to_public_url object_key = public_base_url ++ (b'/' ∷ object_key)

  unfoldable pub create_upload_url : List ℕ → UploadParams → UploadUrl
  create_upload_url uuid params =
      let object_key = build_object_key params.category uuid params.file_name in
      record {
        upload_url = store.signed_url object_key params.content_type upload_url_ttl_seconds;
        public_url = to_public_url object_key;
        object_key = object_key;
      }

  pub confirm_upload : List ℕ → Action W Reason Uploaded
  confirm_upload object_key w = elim (store.head_object object_key w) [
    | none ↦ (err (not_found (not_uploaded object_key)), w)
    | some length ↦ (
      ok (record {
        object_key = object_key;
        public_url = to_public_url object_key;
        size_bytes = or_else length 0;
      }),
      w,
    )
  ]

  pub delete_object : List ℕ → Action W Reason (Unit {0})
  delete_object object_key w = elim (store.delete_object object_key w) [
    | none ↦ (err internal_error, w)
    | some w' ↦ (ok tt, w')
  ]
