-- ===== src/Web/Upload.antt =====
-- apps/web/src/api/files.ts: `uploadFile`, over the two requests to the API and the post to the
-- storage, each an action that throws where its promise is rejected.
use file_processing_platform.Common.{
  ℕ, ◌+◌, ◌*◌, ◌/◌, ◌≤◌, String, ◌≡◌, none, some, Option, List, [], ◌∷◌, ◌++◌, ◌==◌, map, eqb,
  if◌then◌else◌, arith, true, ◌<◌, Bool-cases, inl, inr,
}
use native.Mathlib.Nat.{div-lt_iff_lt-mul}
use file_processing_platform.Common.Exec.{Exec, ◌>>=◌, ◌>>◌}
use file_processing_platform.Schema.{DbFile}
use file_processing_platform.Api.FileService.{CreateUploadUrlInput, CreateUploadUrlResult}
use file_processing_platform.Api.Schemas.{Ajv, create_upload_url_body}
use file_processing_platform.Web.ConvertFlow.{BrowserFile}

-- A part of the form: a field, or the file.
pub data FormPart : Type 0 where
  field : String → String → FormPart
  file_part : BrowserFile → FormPart

-- The parameters of `requestUploadUrl`
unfoldable pub upload_params : BrowserFile → CreateUploadUrlInput
upload_params file = record {
  filename = file.name;
  mime_type = if file.type == "" then "application/octet-stream" else file.type;
  size = file.size;
}

-- The form; the file is its last part.
unfoldable pub upload_form : List (String × String) → BrowserFile → List FormPart
upload_form fields file = map (λ f. field f.0 f.1) fields ++ file_part file ∷ []

-- `onUploadProgress`: the percentage that is reported, if the size is known
unfoldable pub upload_percent : ℕ → ℕ → Option ℕ
upload_percent loaded total =
    if eqb total 0 then none else some ((loaded * 200 + total) / (2 * total))

module _ {W : Type 0} (request_upload_url : CreateUploadUrlInput → Exec W CreateUploadUrlResult)
    (post_to_storage : String → List FormPart → Exec W (Unit {0}))
    (confirm_upload : String → Exec W DbFile) where
  unfoldable pub upload_file : BrowserFile → Exec W DbFile
  unfolding upload_params upload_form
  upload_file file = do
    result ← request_upload_url (upload_params file)
    post_to_storage result.upload_url (upload_form result.form_fields file)
    confirm_upload result.file_id

-- A part of the file that is sent is reported as at most 100 percent.
upload_percent_bound :
    (loaded total p : ℕ) → loaded ≤ total → upload_percent loaded total ≡ some p → p ≤ 100
unfolding upload_percent
upload_percent_bound loaded total p small h = elim (Bool-cases (eqb total 0)) [
  | inl empty ↦ ground (arith, empty, h)
  | inr known ↦
      let pos : 0 < 2 * total = ground (arith, known) in
      let low : loaded * 200 + total < 101 * (2 * total) = omega (arith, pos, small) in
      let bound = (div-lt_iff_lt-mul pos).1 low in ground (arith, known, h, bound)
]

-- What is asked for a file passes the schema of `POST /files/upload-url`, whatever its type, if it is
-- not empty and its name and type are within their limits.
upload_params_fit :
    (ajv : Ajv) (file : BrowserFile)
    → 1 ≤ file.size
    → 1 ≤ ajv.code_points file.name
    → ajv.code_points file.name ≤ 255
    → 1 ≤ ajv.code_points (upload_params file).mime_type
    → ajv.code_points (upload_params file).mime_type ≤ 127
    → create_upload_url_body ajv (record {
      filename = some (upload_params file).filename;
      mime_type = some (upload_params file).mime_type;
      size = some (upload_params file).size;
    })
      ≡ true
unfolding create_upload_url_body upload_params
upload_params_fit ajv file a b c d e = ground (arith, a, b, c, d, e)
