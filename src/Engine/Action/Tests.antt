-- ===== src/Engine/Action/Tests.antt =====
-- An action whose text is read back.
use gomoku.Prelude.{◌≡◌, some}
use gomoku.Prelude.Int.{pos}
use gomoku.Engine.Action.Text.{to_string, from_string, from_string-to_string}

from_string-to_string_example : from_string (to_string (pos 112)) ≡ some (pos 112)
from_string-to_string_example = from_string-to_string (pos 112)
