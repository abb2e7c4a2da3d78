-- ===== src/Utilities/Tools/Text.antt =====
-- The standard string functions that utilities/tools.cpp uses on the credentials file.
use remote_backup_m1_server.Prelude.{
  ℕ, Bool, true, false, ◌&&◌, ◌||◌, List, [], ◌∷◌, ◌++◌, Option, none, some, ◌==◌, if◌then◌else◌,
}

-- `while (getline(ifs, line))`: a last line needs no newline, and none follows a final newline.
unfoldable pub lines_from : List ℕ → List ℕ → List (List ℕ)
lines_from [] [] = []
lines_from (c ∷ cs) [] = (c ∷ cs) ∷ []
lines_from line (c ∷ rest) =
    let new_line = line ∷ lines_from [] rest in
    let same_line = lines_from (line ++ (c ∷ [])) rest in if c == 10 then new_line else same_line

unfoldable pub lines : List ℕ → List (List ℕ)
unfolding lines_from
lines content = lines_from [] content

unfoldable pub starts_with : List ℕ → List ℕ → Bool
starts_with [] text = true
starts_with (c ∷ cs) [] = false
starts_with (c ∷ cs) (d ∷ ds) = c == d && starts_with cs ds

-- `text.find(sub) != npos`
unfoldable pub contains_text : List ℕ → List ℕ → Bool
unfolding starts_with
contains_text [] sub = starts_with sub []
contains_text (c ∷ cs) sub = starts_with sub (c ∷ cs) || contains_text cs sub

-- `text.substr(text.find('\t') + 1)`, if there is a tab.
unfoldable pub after_tab : List ℕ → Option (List ℕ)
after_tab [] = none
after_tab (c ∷ cs) = if c == 9 then some cs else after_tab cs
