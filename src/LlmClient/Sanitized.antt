-- ===== src/LlmClient/Sanitized.antt =====
-- The sentences that the third stage of src/transpose/services/llm_client.py shows.
use transpose.Prelude.{◌≡◌, refl, Bool, true, false, List, [], ◌∷◌, All, ℕ, suc, if◌then◌else◌, any}
use transpose.Text.{Text, is_blank, contains, starts_with, is_space}
use transpose.LlmClient.Prompts.{
  SourceLanguage, hindi, punjabi, body_patterns, has_trigger, paraphrase, rebuild,
}

abbrev pub IsShown : List (List Text × Text) → Text → Type 0
IsShown patterns s = (is_blank s ≡ false) × (has_trigger patterns s ≡ false)

-- The paraphrase itself names no pattern.
paraphrase-IsShown : (l : SourceLanguage) → IsShown (body_patterns l) paraphrase
unfolding is_blank any contains starts_with is_space
paraphrase-IsShown hindi = (refl, refl)
paraphrase-IsShown punjabi = (refl, refl)

IsShown-if :
    (patterns : List (List Text × Text)) (s : Text) (rest : List Text × ℕ) (blank trigger : Bool)
    → IsShown patterns paraphrase
    → is_blank s ≡ blank
    → has_trigger patterns s ≡ trigger
    → All (IsShown patterns) rest.0
    → All
        (IsShown patterns)
        (if blank
          then rest
          else if trigger
          then (paraphrase ∷ rest.0, suc rest.1)
          else (s ∷ rest.0, rest.1)).0
IsShown-if patterns s rest true trigger h b t a = a
IsShown-if patterns s rest false true h b t a = (h, a)
IsShown-if patterns s rest false false h b t a = ((b, t), a)

-- Whatever the sentences are, each that the third stage shows, for a source text in Hindi or in Punjabi, is not blank, and
-- none of the words that the patterns of the language match occurs in it.
pub rebuild-IsShown :
    (source_language : SourceLanguage) (sentences : List Text)
    → All
        (IsShown (body_patterns source_language))
        (rebuild (body_patterns source_language) sentences).0
unfolding rebuild
rebuild-IsShown l [] = tt
rebuild-IsShown l (s ∷ ss) =
    IsShown-if (body_patterns l) s (rebuild (body_patterns l) ss) _ _ (paraphrase-IsShown l) refl
      refl (rebuild-IsShown l ss)
