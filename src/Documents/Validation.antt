-- ===== src/Documents/Validation.antt =====
-- src/modules/documents/utils: document.constants.ts, document-size.util.ts and
-- document-validation.util.ts. The package that knows the signatures of files, the path functions
-- and the decoding of bytes are parameters.
use back_end.Prelude.{
  ℕ, ◌+◌, ◌*◌, String, Bool, false, ◌&&◌, ◌||◌, List, [], ◌∷◌, Option, none, some, ◌==◌, ◌===◌,
  string_Eq, if◌then◌else◌, ltb, leb, length, take, array_some, array_filter,
}
use back_end.World.{Result, ok, err, payload_too_large, unsupported_media_type}

abbrev pub max_document_file_size_bytes : ℕ
max_document_file_size_bytes = 50 * 1024 * 1024

abbrev pub max_session_document_total_size_bytes : ℕ
max_session_document_total_size_bytes = 200 * 1024 * 1024

unfoldable pub assert_document_file_size_within_limit : ℕ → Result (Unit {0})
assert_document_file_size_within_limit file_size_bytes =
    if ltb max_document_file_size_bytes file_size_bytes
    then err (
        payload_too_large
          "Uploaded file exceeds the 50 MB limit (${fileSizeBytes} bytes received).")
    else ok tt

unfoldable pub assert_session_document_size_within_limit : ℕ → ℕ → Result (Unit {0})
assert_session_document_size_within_limit current_session_bytes incoming_file_bytes =
    if ltb max_session_document_total_size_bytes (current_session_bytes + incoming_file_bytes)
    then err (
        payload_too_large
          "Uploading this file would exceed the 200 MB document limit for the session.")
    else ok tt

abbrev docx_type : String
docx_type = "application/vnd.openxmlformats-officedocument.wordprocessingml.document"

abbrev pub allowed_document_mime_types : List String
allowed_document_mime_types =
    "text/plain" ∷ "application/pdf" ∷ docx_type ∷ "image/png" ∷ "image/jpeg" ∷ "image/webp"
    ∷ "audio/mpeg" ∷ "audio/wav" ∷ "audio/x-m4a" ∷ "text/markdown" ∷ []

abbrev pub allowed_document_extensions : List (String × String)
allowed_document_extensions =
    (".txt", "text/plain")
    ∷ (".pdf", "application/pdf")
    ∷ (".docx", docx_type)
    ∷ (".png", "image/png")
    ∷ (".jpg", "image/jpeg")
    ∷ (".jpeg", "image/jpeg")
    ∷ (".webp", "image/webp")
    ∷ (".mp3", "audio/mpeg")
    ∷ (".wav", "audio/wav")
    ∷ (".m4a", "audio/x-m4a")
    ∷ (".md", "text/markdown")
    ∷ []

abbrev pub magic_mime_equivalents : List (String × List String)
magic_mime_equivalents =
    ("text/plain", [])
    ∷ ("application/pdf", "application/pdf" ∷ [])
    ∷ (docx_type, "application/zip" ∷ [])
    ∷ ("image/png", "image/png" ∷ [])
    ∷ ("image/jpeg", "image/jpeg" ∷ [])
    ∷ ("image/webp", "image/webp" ∷ [])
    ∷ ("audio/mpeg", "audio/mpeg" ∷ [])
    ∷ ("audio/wav", "audio/wav" ∷ "audio/vnd.wave" ∷ "audio/x-wav" ∷ [])
    ∷ ("audio/x-m4a", "audio/x-m4a" ∷ "audio/mp4" ∷ "video/mp4" ∷ [])
    ∷ ("text/markdown", [])
    ∷ []

-- A property of an object that is a table.
abbrev pub entry : {A : Type 0} → String → List (String × A) → Option A
entry k [] = none
entry k ((j, v) ∷ m) = if k === j then some v else entry k m

abbrev pub includes_text : List String → String → Bool
includes_text xs x = array_some (λ y. y === x) xs

abbrev pub Bytes : Type 0
Bytes = List ℕ

-- `path.extname(filename).toLowerCase()`, `fileTypeFromBuffer`, and whether the decoded bytes
-- include the replacement character.
pub record FileTools : Type 0 where
  pub extension : String → String
  pub detect_file_type : Bytes → Option String
  pub has_replacement : Bytes → Bool

abbrev pub is_printable : ℕ → Bool
is_printable b = b == 9 || b == 10 || b == 13 || (leb 32 b && leb b 126)

module _ (tools : FileTools) where
  abbrev pub get_mime_type_from_filename : String → Option String
  get_mime_type_from_filename filename =
      entry (tools.extension filename) allowed_document_extensions

  -- At least 85 of 100 bytes of the sample are printable.
  unfoldable pub buffer_looks_like_utf8_text : Bytes → Bool
  buffer_looks_like_utf8_text buffer =
      let sample = take 4096 buffer in
      if array_some (λ b. b == 0) sample
      then false
      else if tools.has_replacement sample
      then false
      else leb (85 * (if length sample == 0 then 1 else length sample))
          (100 * length (array_filter is_printable sample))

  abbrev pub mismatch : String → Result String
  mismatch type =
      err (unsupported_media_type "File content does not match the ${extensionMimeType} extension.")

  abbrev pub matches_magic : String → String → Bool
  matches_magic type mime = elim (entry type magic_mime_equivalents) [
    | none ↦ false
    | some mimes ↦ includes_text mimes mime
  ]

  -- The end of the check, where the extension stands for an allowed type.
  abbrev pub checked_content : String → Bytes → Option String → Result String
  checked_content type buffer detected =
      if type === "text/plain" || type === "text/markdown"
      then elim detected [
        | some mime ↦ if matches_magic type mime then ok type else mismatch type
        | none ↦ if buffer_looks_like_utf8_text buffer then ok type else mismatch type
      ]
      else elim detected [
        | none ↦ err (unsupported_media_type "Could not verify the uploaded file signature.")
        | some mime ↦ if matches_magic type mime then ok type else mismatch type
      ]

  unfoldable pub validate_document_mime_type : String → Bytes → Result String
  unfolding buffer_looks_like_utf8_text
  validate_document_mime_type filename buffer = elim (get_mime_type_from_filename filename) [
    | none ↦ err (unsupported_media_type "File extension is not supported.")
    | some type ↦
        if includes_text allowed_document_mime_types type
        then checked_content type buffer (tools.detect_file_type buffer)
        else err (unsupported_media_type "File extension is not supported.")
  ]
