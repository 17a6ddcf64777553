-- ===== src/Service/Subjects.antt =====
-- Which callers share a quota.
use pf_media.Base.{Str, ◌≡◌, ◌⊎◌, arith, str_eq}
use pf_media.Service.{quota_subject}

-- Two callers with the same quota subject have the same organisation or the same subject.
pub quota_subject-same :
    (g o g' o' : Str) → quota_subject g o ≡ quota_subject g' o' → (g ≡ g') ⊎ (o ≡ o')
unfolding quota_subject
quota_subject-same g o g' o' e = ground arith
