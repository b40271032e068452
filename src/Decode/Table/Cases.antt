-- ===== src/Decode/Table/Cases.antt =====
-- The cases of a `switch` of src/mips/instructions/instructions_table.cpp.
use vemips.Base.{ℕ, List, [], ◌∷◌}
use vemips.Decode.{MapOrInfo, Map, nil, entry}

abbrev pub cases {ℓ} : {I : Type ℓ} → List (ℕ × MapOrInfo I) → Map I
cases [] = nil
cases ((key, node) ∷ arms) = entry key node (cases arms)
