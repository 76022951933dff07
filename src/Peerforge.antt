-- ===== src/Peerforge.antt =====
-- tools/peerforge, a tester that plays many clients against a server.
pub mod Options
pub mod Client
pub mod Probe
pub mod Assigned
use tund.Base.{ℕ, Bool, true, false, List, [], ◌∷◌, ◌==◌, ◌&&◌}

-- `strcmp` finds two strings equal.
unfoldable pub same_text : List ℕ → List ℕ → Bool
same_text [] [] = true
same_text [] (d ∷ ds) = false
same_text (c ∷ cs) [] = false
same_text (c ∷ cs) (d ∷ ds) = (c == d) && same_text cs ds
