-- ===== src/Base/Texts.antt =====
-- Texts as sequences of characters.
use distributed_order_proces.Base.{String, ◌≡◌}

-- `s + t`
abbrev pub append : String → String → String
append String.[] t = t
append (String.◌∷◌ c s) t = String.◌∷◌ c (append s t)

pub append-inj : (p s t : String) → append p s ≡ append p t → s ≡ t
append-inj String.[] s t h = h
append-inj (String.◌∷◌ c p) s t h = append-inj p s t cc
