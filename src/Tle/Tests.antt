-- ===== src/Tle/Tests.antt =====
-- A file with two satellites.
use gr_ccsds.Prelude.{◌≡◌, refl, List, [], ◌∷◌, Text, codes, ok, err, key_error, lower, rstrip_by}
use gr_ccsds.Tle.Defs.{clean, scan, get_tle_from_file}

abbrev lines : List Text
lines =
    codes "ISS"
    ∷ codes "1 25544"
    ∷ codes "2 25544"
    ∷ codes "MOVE-II "
    ∷ codes "1 43780 "
    ∷ codes "2 43780"
    ∷ []

finds :
    get_tle_from_file lines (codes "Move-II")
    ≡ ok (codes "MOVE-II" ∷ codes "1 43780" ∷ codes "2 43780" ∷ [])
unfolding get_tle_from_file scan clean lower rstrip_by
finds = refl

misses : get_tle_from_file lines (codes "FUNcube") ≡ err key_error
unfolding get_tle_from_file scan clean lower rstrip_by
misses = refl
