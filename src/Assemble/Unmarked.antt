-- ===== src/Assemble/Unmarked.antt =====
-- The markers of failed translations that src/transpose/pipeline/assemble.py takes out of the text.
use transpose.Prelude.{Bool, true, not, ◌&&◌, [], ◌∷◌, ◌==◌}
use transpose.Text.{Text, codes}

abbrev no_bracket : Text → Bool
no_bracket [] = true
no_bracket (c ∷ s) = not (c == b'[') && no_bracket s

abbrev failed_tail : Text
failed_tail = codes "TRANSLATION FAILED — REVIEW REQUIRED]"

abbrev prefix_tail : Text
prefix_tail = codes "Original text — translation unavailable]"
