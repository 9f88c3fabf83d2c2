-- ===== src/Protocol/PlainNames.antt =====
-- core/protocol.py: stand-ins for Python's text and path libraries, for the tests.
use Prim.Native.String.{[], ◌∷◌}
use mesh_direct.Prelude.{◌≡◌, refl, String, true, false, arith, if◌then◌else◌}
use mesh_direct.Protocol.Text.{any_char}
use mesh_direct.Protocol.Names.{is_separator}
use mesh_direct.Protocol.{FileNames}

unfoldable pub last_part : String → String
last_part [] = []
last_part (c ∷ s) = if any_char is_separator (c ∷ s) then last_part s else c ∷ s

pub last_part_plain : (s : String) → any_char is_separator (last_part s) ≡ false
unfolding last_part
last_part_plain [] = refl
last_part_plain (c ∷ s) = ground (arith, last_part_plain s)

-- Every name is printable and none reserved.
abbrev pub plain_names : FileNames
unfolding last_part
plain_names = record {
  is_encodable = λ s. true;
  is_printable = λ s. true;
  native_name = λ s. s;
  windows_name = last_part;
  is_reserved = λ s. false;
}
