-- ===== src/Util/Tests.antt =====
-- The hexadecimal text of three bytes.
use fb_adb.Prelude.{[], ◌∷◌, Bytes}

abbrev bytes : Bytes
bytes = 0 ∷ 171 ∷ 255 ∷ []
