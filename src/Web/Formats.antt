-- ===== src/Web/Formats.antt =====
-- apps/web/src/features/converter/hooks/useFormatOptions.ts
use file_processing_platform.Common.{String, none, some, List, [], ◌∷◌}
use file_processing_platform.Api.Guards.{behind}

-- `FORMAT_MAP`
abbrev pub format_map : List (String × List String)
format_map =
    ("image/", "PNG" ∷ "JPEG" ∷ "WEBP" ∷ [])
    ∷ ("application/pdf", "DOCX" ∷ "PNG" ∷ "TXT" ∷ [])
    ∷ ("video/", "MP4" ∷ "WEBM" ∷ "GIF" ∷ "MP3" ∷ [])
    ∷ ("audio/", "MP3" ∷ "WAV" ∷ "OGG" ∷ "FLAC" ∷ [])
    ∷ []

-- The loop: the formats of the first prefix that fits.
unfoldable pub formats_of : List (String × List String) → String → List String
unfolding behind
formats_of [] mime_type = []
formats_of ((prefix, formats) ∷ more) mime_type =
    let later = formats_of more mime_type in
    elim (behind prefix mime_type) [ none ↦ later | some rest ↦ formats ]

unfoldable pub get_format_options : String → List String
unfolding formats_of
get_format_options mime_type = formats_of format_map mime_type
