-- ===== src/RuleEngine/Errors/RoundTrip.antt =====
-- A header line of nft, printed and parsed.
use network_sandbox_engine.Prelude.{
  ℕ, Text, after, drop_space, decimal, is_word, is_space, not, ◌==◌, Bool, false, Option, some, ◌∷◌,
  ◌++◌, ◌≡◌, refl, ◌∙◌, ap, arith,
}
use network_sandbox_engine.Prelude.Spans.{Run, run, run_of-Run, Run-decimal, digits_value-decimal}
use network_sandbox_engine.RuleEngine.Errors.{
  Location, nft_error_re, field, read_message, is_column,
}

-- A line of nft's output that heads an error.
abbrev pub header : Text → ℕ → Text → Text → Text → Text
header file n cols level msg =
    file ++ b':' ∷ (decimal n ++ b':' ∷ (cols ++ b':' ∷ 32 ∷ (level ++ b':' ∷ 32 ∷ msg)))

-- What a message starts with is not white space.
pub data Message : Text → Type 0 where
  message : {d : ℕ} {t : Text} → is_space d ≡ false → Message (d ∷ t)

field-Run :
    (p : ℕ → Bool) (rest : Text → Text → Option Location) {t : Text}
    → Run p t
    → p b':' ≡ false
    → (u : Text) → field p rest (t ++ b':' ∷ u) ≡ rest t u
unfolding field after
field-Run p rest a e u = rw (run_of-Run p a b':' u e) refl

drop_space-Message : {t : Text} → Message t → drop_space (32 ∷ t) ≡ t
unfolding drop_space
drop_space-Message (message e) = rw e refl

Message-Run : {t : Text} → Run is_word t → (rest : Text) → Message (t ++ rest)
Message-Run (run {d} {t} (q, a)) rest = message (ground arith)

read_message-Message :
    (n : ℕ) (cols level : Text) {t : Text}
    → Message t
    → read_message (decimal n) cols level (32 ∷ t)
      ≡ some (record { line = n; column_range = cols; level = level; message = t })
read_message-Message n cols level (message {d = c} {t = t} e) =
    rw (drop_space-Message (message {d = c} {t = t} e), digits_value-decimal n) refl

-- The header of an error is read back: the line, the columns, the level and the message are those that
-- nft printed, where the file's name has no colon, columns and level are of their class, and the message
-- does not start with white space.
pub nft_error_re-header :
    (file : Text) (n : ℕ) (cols level msg : Text)
    → Run (λ c. not (c == b':')) file
    → Run is_column cols
    → Run is_word level
    → Message msg
    → nft_error_re (header file n cols level msg)
      ≡ some (record { line = n; column_range = cols; level = level; message = msg })
unfolding nft_error_re
nft_error_re-header file n cols level msg f c l m =
    field-Run _ _ f refl _
    ∙ field-Run _ _ (Run-decimal n) refl _
    ∙ field-Run _ _ c refl _
    ∙ ap (field _ _) (drop_space-Message (Message-Run l _))
    ∙ field-Run _ _ l refl _
    ∙ read_message-Message n cols level m
