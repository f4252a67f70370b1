-- ===== src/Util/Uri/ParseTotal.antt =====
-- util/URI.cc: parse with validation fails no assertion.
use oasys.Base.{◌≡◌, refl, Bool, true, false, Option, some, if◌then◌else◌}
use oasys.Util.Uri.Types.{Uri}

abbrev IsTotal : Option Uri → Type 0
IsTotal m = (v : Uri) × (m ≡ some v)

if-IsTotal : (b : Bool) (u : Uri) (m : Option Uri) → IsTotal m → IsTotal (if b then some u else m)
if-IsTotal true u m h = (u, refl)
if-IsTotal false u m h = h
