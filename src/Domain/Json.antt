-- ===== src/Domain/Json.antt =====
-- `Variants.JSON` and `ParseVariants` of apps/api/internal/domain/domain.go, over encoding/json.
use pf_media.Base.{Str, Option, none, some, [], codes, if◌then◌else◌, ◌==◌, str_eq}
use pf_media.Domain.{Variants}

-- `unmarshal` is the map that json.Unmarshal leaves in `out`, or none where it leaves nil.
pub record Json : Type 0 where
  pub marshal : Variants → Str
  pub unmarshal : Str → Option Variants

module _ (json : Json) where
  -- `v.JSON()`: the map nil and the empty map are one here, and have one text.
  unfoldable pub variants_json : Variants → Str
  variants_json [] = codes "{}"
  variants_json vs = json.marshal vs

  -- `if out == nil { return Variants{} }; return out`
  abbrev pub or_empty : Option Variants → Variants
  or_empty none = []
  or_empty (some out) = out

  unfoldable pub parse_variants : Str → Variants
  parse_variants raw = if raw == [] then [] else or_empty (json.unmarshal raw)
