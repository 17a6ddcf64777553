-- ===== src/Mime.antt =====
-- apps/api/internal/mimeutil/mime.go: the upload allow-list and the sniffing of content types.
pub mod Matching
use pf_media.Base.{
  Str, ℕ, suc, Bool, true, false, not, ◌&&◌, ◌||◌, Option, none, some, List, [], ◌∷◌, if◌then◌else◌,
  ◌==◌, nat_eq, str_eq, str_discrete, ltb, leb, codes, length, take, drop, get_or, contains,
}
use pf_media.Base.Text.{has_prefix, split_head, trim_space, to_lower}

abbrev pub image_jpeg : Str
image_jpeg = codes "image/jpeg"

abbrev pub image_png : Str
image_png = codes "image/png"

abbrev pub image_webp : Str
image_webp = codes "image/webp"

abbrev pub image_gif : Str
image_gif = codes "image/gif"

abbrev pub application_pdf : Str
application_pdf = codes "application/pdf"

abbrev pub application_zip : Str
application_zip = codes "application/zip"

abbrev pub text_plain : Str
text_plain = codes "text/plain"

abbrev pub allowed_images : List Str
allowed_images = image_jpeg ∷ image_png ∷ image_webp ∷ image_gif ∷ []

abbrev pub allowed_documents : List Str
allowed_documents = application_pdf ∷ application_zip ∷ text_plain ∷ []

unfoldable pub normalize : Str → Str
unfolding split_head trim_space to_lower
normalize ct = to_lower (trim_space (split_head ct b';'))

unfoldable pub allowed_image : Str → Bool
unfolding contains
allowed_image ct = contains allowed_images (normalize ct)

unfoldable pub allowed_document : Str → Bool
unfolding contains
allowed_document ct = contains allowed_documents (normalize ct)

unfoldable pub allowed_upload : Str → Bool
unfolding contains
allowed_upload ct =
    let ct' = normalize ct in
    if contains allowed_images ct' then true else contains allowed_documents ct'

unfoldable pub is_image : Str → Bool
unfolding has_prefix
is_image ct = has_prefix (normalize ct) (codes "image/")

-- The test of the loop's body: a byte that plain text may hold.
abbrev pub text_byte : ℕ → Bool
text_byte b =
    if b == 0 then false else not (ltb b 0x09 || (ltb 0x0d b && ltb b 0x20 && not (b == 0x1b)))

text_bytes : Str → Bool
text_bytes [] = true
text_bytes (b ∷ bs) = text_byte b && text_bytes bs

unfoldable pub looks_like_text : Str → Bool
unfolding text_bytes
looks_like_text [] = false
looks_like_text (b ∷ bs) = text_bytes (b ∷ bs)

abbrev pub pdf_magic : Str
pdf_magic = codes "%PDF-"

abbrev pub png_magic : Str
png_magic = 0x89 ∷ 0x50 ∷ 0x4e ∷ 0x47 ∷ 0x0d ∷ 0x0a ∷ 0x1a ∷ 0x0a ∷ []

-- `head[i]`; each use in the code stands behind a test of the length.
abbrev pub at : Str → ℕ → ℕ
at head i = get_or head i 0

unfoldable pub sniff_upload : Str → Option Str
unfolding has_prefix looks_like_text
sniff_upload head =
    if ltb (length head) 4
    then none
    else if leb 5 (length head) && has_prefix head pdf_magic
    then some application_pdf
    else if at head 0 == b'P'
        && at head 1 == b'K'
        && (at head 2 == 3 || at head 2 == 5 || at head 2 == 7)
    then some application_zip
    else if leb 3 (length head) && at head 0 == 0xff && at head 1 == 0xd8 && at head 2 == 0xff
    then some image_jpeg
    else if leb 8 (length head) && take 8 head == png_magic
    then some image_png
    else if leb 6 (length head) && (take 6 head == codes "GIF87a" || take 6 head == codes "GIF89a")
    then some image_gif
    else if leb 12 (length head)
        && take 4 head == codes "RIFF"
        && take 4 (drop 8 head) == codes "WEBP"
    then some image_webp
    else if allowed_document text_plain && looks_like_text head
    then some text_plain
    else none

-- The comparison at the end of `MatchesUpload`.
abbrev same_type : Str → Option Str → Bool
same_type declared none = false
same_type declared (some sniffed) = sniffed == declared

unfoldable pub matches_upload : Str → Str → Bool
matches_upload declared head =
    let declared' = normalize declared in
    if not (allowed_upload declared') then false else same_type declared' (sniff_upload head)
