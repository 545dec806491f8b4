-- ===== src/AdoptionSsh/Parse/Quoting.antt =====
-- A quoted argument is one field.
use unifi_stubd.Prelude.{◌≡◌, false, List, [], ◌∷◌, ◌++◌}
use unifi_stubd.Prelude.Text.{Bytes, is_empty}
use unifi_stubd.Prelude.Text.Lines.{Lacks}

-- An argument that single quotes protect.
abbrev pub IsArgument : Bytes → Type 0
IsArgument a = (is_empty a ≡ false) × Lacks b'\'' a × Lacks b'\\' a

abbrev pub AreArguments : List Bytes → Type 0
AreArguments [] = Unit
AreArguments (a ∷ args) = IsArgument a × AreArguments args

abbrev pub quote : Bytes → Bytes
quote a = b'\'' ∷ a ++ b'\'' ∷ []
