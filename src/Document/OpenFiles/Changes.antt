-- ===== src/Document/OpenFiles/Changes.antt =====
-- src/backend/server.rs: the text that a change message leaves in the buffer.
use php_lsp.Prelude.{◌≡◌, refl, Option, none, some, List, [], ◌∷◌}
use php_lsp.Prelude.Chars.{Text}
use php_lsp.Text.Offset.{Range}
use php_lsp.Text.Offset.Change.{edited, apply_content_change-edited}
use php_lsp.Document.OpenFiles.{changed_text}

-- The buffer after each change in turn: a change with a range edits, one without replaces.
abbrev pub edited_by : Text → List (Option Range × Text) → Text
edited_by buffer [] = buffer
edited_by buffer ((none, text) ∷ changes) = edited_by text changes
edited_by buffer ((some range, text) ∷ changes) = edited_by (edited buffer range text) changes

abbrev pub updated_by : Text → List (Option Range × Text) → Option Text
updated_by buffer [] = none
updated_by buffer (change ∷ changes) = some (edited_by buffer (change ∷ changes))

changed_some :
    (buffer text : Text) (changes : List (Option Range × Text))
    → changed_text buffer (some text) changes ≡ some (some (edited_by text changes))
unfolding changed_text
changed_some buffer text [] = refl
changed_some buffer text ((none, t) ∷ changes) = changed_some buffer t changes
changed_some buffer text ((some range, t) ∷ changes) =
    rw
      (
        changed_text,
        apply_content_change-edited text range t,
        changed_some buffer (edited text range t) changes,
      )
      refl

-- Whatever changes a message holds, none of them panics, each one edits the text that the ones
-- before it left, and a message without changes leaves the buffer alone.
pub changed_text-updated_by :
    (buffer : Text) (changes : List (Option Range × Text))
    → changed_text buffer none changes ≡ some (updated_by buffer changes)
unfolding changed_text
changed_text-updated_by buffer [] = refl
changed_text-updated_by buffer ((none, t) ∷ changes) = changed_some buffer t changes
changed_text-updated_by buffer ((some range, t) ∷ changes) =
    rw
      (
        changed_text,
        apply_content_change-edited buffer range t,
        changed_some buffer (edited buffer range t) changes,
      )
      refl
