-- ===== src/ObjectKeys.antt =====
-- The names of stored objects, from apps/api/internal/objectstore/minio.go.
use pf_media.Base.{Str, ◌++◌, codes}

abbrev slash : Str
slash = codes "/"

-- ObjectPrefix
unfoldable pub object_prefix : Str → Str → Str
object_prefix owner_sub file_id = codes "user/" ++ owner_sub ++ slash ++ file_id ++ slash

-- VariantKey
unfoldable pub variant_key : Str → Str → Str → Str
variant_key owner_sub file_id variant =
    codes "user/" ++ owner_sub ++ slash ++ file_id ++ slash ++ variant

-- ObjectKey
unfoldable pub object_key : Str → Str → Str
object_key owner_sub file_id = codes "user/" ++ owner_sub ++ slash ++ file_id ++ codes "/orig"
