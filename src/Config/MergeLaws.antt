-- ===== src/Config/MergeLaws.antt =====
-- Where each merged option comes from.
use gr_ccsds.Prelude.{◌≡◌, refl, none, some, [], ◌∷◌, String, eq_iff, arith}
use gr_ccsds.Config.Dict.{Dict, lookup, insert, lookup-insert, or_else}
use gr_ccsds.Config.File.{find}
use gr_ccsds.Config.Merge.{choose, merge}

lookup-merge :
    (d c f o : Dict) (k : String)
    → lookup k (merge d c f o)
      ≡ elim (find k d) [ none ↦ lookup k o | some v ↦ some (choose c f k v) ]
unfolding merge find
lookup-merge [] c f o k = refl
lookup-merge ((j, v) ∷ d) c f o k = ground (
  arith,
  lookup-merge d c f (insert j (choose c f j v) o) k,
  lookup-insert j k (choose c f j v) o,
  eq_iff j k,
)

-- What the merging gives for a key: the value on the command line if there is one; for a key that has
-- a default, else the value in the config file, and else the default; nothing for any other key.
pub merge_priority :
    (d c f : Dict) (k : String)
    → lookup k (merge d c f c)
      ≡ or_else
          (lookup k c)
          (elim (find k d) [ none ↦ none | some v ↦ or_else (lookup k f) (some v) ])
unfolding choose
merge_priority d c f k = ground (arith, lookup-merge d c f c k)
