-- ===== src/CharSelect/Params/Matrix.antt =====
-- The matrix that stands in a comment of src/char_select/char_select_client_trilogy.c: for each class,
-- from Warrior to Enchanter, the races from Human to Iksar that may have it.
use eqp.Common.{Bool, true, false, List, [], ◌∷◌}

abbrev pub matrix : List (List Bool)
matrix =
    (true ∷ true ∷ false ∷ true ∷ false ∷ true ∷ true ∷ true ∷ true ∷ true ∷ true ∷ true ∷ true
      ∷ [])
    ∷ (true ∷ false ∷ true ∷ false ∷ true ∷ true ∷ false ∷ true ∷ false ∷ false ∷ true ∷ true
        ∷ false ∷ [])
    ∷ (true ∷ false ∷ true ∷ false ∷ true ∷ false ∷ true ∷ true ∷ false ∷ false ∷ true ∷ true
        ∷ false ∷ [])
    ∷ (true ∷ false ∷ false ∷ true ∷ false ∷ false ∷ true ∷ false ∷ false ∷ false ∷ true ∷ false
        ∷ false ∷ [])
    ∷ (true ∷ false ∷ true ∷ false ∷ false ∷ true ∷ false ∷ false ∷ true ∷ true ∷ false ∷ true
        ∷ true ∷ [])
    ∷ (true ∷ false ∷ false ∷ true ∷ false ∷ false ∷ true ∷ false ∷ false ∷ false ∷ true ∷ false
        ∷ false ∷ [])
    ∷ (true ∷ false ∷ false ∷ false ∷ false ∷ false ∷ false ∷ false ∷ false ∷ false ∷ false ∷ false
        ∷ true ∷ [])
    ∷ (true ∷ false ∷ false ∷ true ∷ false ∷ false ∷ true ∷ false ∷ false ∷ false ∷ false ∷ false
        ∷ false ∷ [])
    ∷ (true ∷ true ∷ false ∷ true ∷ false ∷ true ∷ true ∷ true ∷ false ∷ false ∷ true ∷ true ∷ false
        ∷ [])
    ∷ (false ∷ true ∷ false ∷ false ∷ false ∷ false ∷ false ∷ false ∷ true ∷ true ∷ false ∷ false
        ∷ true ∷ [])
    ∷ (true ∷ false ∷ true ∷ false ∷ false ∷ true ∷ false ∷ false ∷ false ∷ false ∷ false ∷ true
        ∷ true ∷ [])
    ∷ (true ∷ false ∷ true ∷ false ∷ true ∷ true ∷ false ∷ false ∷ false ∷ false ∷ false ∷ true
        ∷ false ∷ [])
    ∷ (true ∷ false ∷ true ∷ false ∷ true ∷ true ∷ false ∷ false ∷ false ∷ false ∷ false ∷ true
        ∷ false ∷ [])
    ∷ (true ∷ false ∷ true ∷ false ∷ true ∷ true ∷ false ∷ false ∷ false ∷ false ∷ false ∷ true
        ∷ false ∷ [])
    ∷ []
