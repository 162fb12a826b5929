-- ===== src/Chunk/Composed.antt =====
-- The splitting of long paragraphs in the run of src/transpose/pipeline/chunk.py.
use transpose.Prelude.{◌≡◌, List, All}
use transpose.Text.{Text}
use transpose.Chunk.{Chunk}
use transpose.Chunk.Joined.{visible}
use transpose.Chunk.Within.{Kept}
use transpose.Chunk.Sentences.{visible_all}

-- Its pieces are together the paragraph, and each of them is in a chunk.
pub record IsKept (pieces : List Text) (para : Text) (chunks : List Chunk) : Type 0 where
  pub together : visible_all pieces ≡ visible para
  pub each : All (λ p. Kept p chunks) pieces
