-- ===== src/Mime/Matching.antt =====
-- What `SniffUpload` can answer, and when an upload matches its declared type.
use pf_media.Base.{
  sym, ◌∙◌, Str, ◌≡◌, refl, ◌↔◌, ◌⊎◌, Bool, true, Option, none, some, arith, str_eq, str_discrete,
  ℕ_discrete, if_both, if◌then◌else◌, inl, inr,
}
use pf_media.Mime.{
  normalize, allowed_upload, sniff_upload, matches_upload, image_jpeg, image_png, image_webp,
  image_gif, application_pdf, application_zip, text_plain,
}

-- The seven types that sniffing can answer.
abbrev pub OneOfSeven : Str → Type 0
OneOfSeven t =
    (t ≡ application_pdf)
    ⊎ (t ≡ application_zip)
    ⊎ (t ≡ image_jpeg)
    ⊎ (t ≡ image_png)
    ⊎ (t ≡ image_gif)
    ⊎ (t ≡ image_webp)
    ⊎ (t ≡ text_plain)

record IsSeven (o : Option Str) : Type 0 where
  bound : (t : Str) → o ≡ some t → OneOfSeven t

IsSeven-none : IsSeven none
IsSeven-none = record { bound = λ t h. cc }

IsSeven-some : (t : Str) → OneOfSeven t → IsSeven (some t)
IsSeven-some t h = record { bound = λ t' e. ground arith }

IsSeven-if : (b : Bool) (x y : Option Str) → IsSeven x → IsSeven y → IsSeven (if b then x else y)
IsSeven-if b x y hx hy = if_both IsSeven b x y hx hy

sniff_upload-IsSeven : (head : Str) → IsSeven (sniff_upload head)
unfolding sniff_upload
sniff_upload-IsSeven head = search (IsSeven-none, IsSeven-some, IsSeven-if, arith) depth 12

sniff_upload-seven : (head t : Str) → sniff_upload head ≡ some t → OneOfSeven t
sniff_upload-seven head t h = (sniff_upload-IsSeven head).bound t h

-- The seven types are spelled as `normalize` leaves them, and the allow-list has them.
seven_normal : (t : Str) → OneOfSeven t → (normalize t ≡ t) × (allowed_upload t ≡ true)
unfolding normalize allowed_upload ℕ_discrete str_discrete
seven_normal t (inl e) = rw e (refl, refl)
seven_normal t (inr (inl e)) = rw e (refl, refl)
seven_normal t (inr (inr (inl e))) = rw e (refl, refl)
seven_normal t (inr (inr (inr (inl e)))) = rw e (refl, refl)
seven_normal t (inr (inr (inr (inr (inl e))))) = rw e (refl, refl)
seven_normal t (inr (inr (inr (inr (inr (inl e)))))) = rw e (refl, refl)
seven_normal t (inr (inr (inr (inr (inr (inr e)))))) = rw e (refl, refl)

-- A type that sniffing answers is on the allow-list, and `normalize` leaves it alone.
pub sniff_upload-allowed :
    (head t : Str) → sniff_upload head ≡ some t → (normalize t ≡ t) × (allowed_upload t ≡ true)
sniff_upload-allowed head t h = seven_normal t (sniff_upload-seven head t h)

-- An upload matches its declared type exactly when the sniffed type is the declared one, without
-- its parameters, trimmed and in lower case.
pub matches_upload_iff :
    (declared head : Str)
    → (matches_upload declared head ≡ true) ↔ (sniff_upload head ≡ some (normalize declared))
unfolding matches_upload
matches_upload_iff declared head =
    (λ h. ground arith, λ h. ground (arith, sniff_upload-allowed head (normalize declared)))

allowed_upload-normalize :
    (ct : Str)
    → normalize (normalize ct) ≡ normalize ct
    → allowed_upload (normalize ct) ≡ allowed_upload ct
unfolding allowed_upload
allowed_upload-normalize ct e = rw e

-- So an upload that matches has an allowed type.
pub matches_upload-allowed :
    (declared head : Str) → matches_upload declared head ≡ true → allowed_upload declared ≡ true
matches_upload-allowed declared head h =
    let sniffed = (matches_upload_iff declared head).0 h in
    let (normal, allowed) = sniff_upload-allowed head (normalize declared) sniffed in
    sym (allowed_upload-normalize declared normal) ∙ allowed
