-- ===== src/Tools/Listing.antt =====
-- What the registry lists (agi_platform/tool_registry.py).
use mathlib.Core.List.{append-nil}
use agi_platform.Prelude.{
  String, ◌==◌, List, [], ◌∷◌, ◌++◌, map, length, false, Dict, put, values, All, ◌≡◌, refl, sym, ap,
  ◌∙◌,
}
use agi_platform.Database.{Distinct}
use agi_platform.Tools.{ToolContract, register, new_registry, list_tools, mcp_tool, mcp_manifest}

abbrev entry : ToolContract → String × ToolContract
entry c = (c.name, c)

-- No entry has the name.
abbrev Absent : Dict ToolContract → ToolContract → Type 0
Absent d c = All (λ e. (e.0 == c.name) ≡ false) d

put-Absent :
    (d : Dict ToolContract) (c : ToolContract) → Absent d c → put d c.name c ≡ d ++ entry c ∷ []
unfolding put
put-Absent [] c h = refl
put-Absent ((k, v) ∷ d) c h = rw (h.0, put-Absent d c h.1) refl

Absent-snoc :
    (d : Dict ToolContract) (c c' : ToolContract)
    → Absent d c'
    → (c.name == c'.name) ≡ false
    → Absent (d ++ entry c ∷ []) c'
Absent-snoc [] c c' h n = (n, tt)
Absent-snoc (e ∷ d) c c' h n = (h.0, Absent-snoc d c c' h.1 n)

All-Absent-snoc :
    (d : Dict ToolContract) (c : ToolContract) (cs : List ToolContract)
    → All (Absent d) cs
    → All (λ (s : ToolContract). (c.name == s.name) ≡ false) cs
    → All (Absent (d ++ entry c ∷ [])) cs
All-Absent-snoc d c [] a n = tt
All-Absent-snoc d c (s ∷ cs) a n = (Absent-snoc d c s a.0 n.0, All-Absent-snoc d c cs a.1 n.1)

register-Distinct :
    (d : Dict ToolContract) (cs : List ToolContract)
    → All (Absent d) cs
    → Distinct (λ (c : ToolContract). c.name) cs
    → values (register d cs) ≡ values d ++ cs
unfolding register
register-Distinct d [] a n = sym (append-nil (values d))
register-Distinct d (c ∷ cs) a n = rw (put-Absent d c a.0) (
    register-Distinct (d ++ entry c ∷ []) cs (All-Absent-snoc d c cs a.1 n.0) n.1
    ∙ values_snoc d c cs)
  where
    values_snoc :
        (d : Dict ToolContract) (c : ToolContract) (cs : List ToolContract)
        → values (d ++ entry c ∷ []) ++ cs ≡ values d ++ c ∷ cs
    values_snoc [] c cs = refl
    values_snoc (e ∷ d) c cs = rw (values_snoc d c cs) refl

All-Absent-empty : (cs : List ToolContract) → All (Absent []) cs
All-Absent-empty [] = tt
All-Absent-empty (c ∷ cs) = (tt, All-Absent-empty cs)

-- A registry of contracts with different names lists each of them once, in their order, and counts
-- them; and the manifest has one tool for each, in that order.
list_tools-new_registry :
    (cs : List ToolContract)
    → Distinct (λ (c : ToolContract). c.name) cs
    → ((list_tools (new_registry cs)).tools ≡ cs)
      × ((list_tools (new_registry cs)).count ≡ length cs)
      × ((mcp_manifest (new_registry cs)).tools ≡ map mcp_tool cs)
unfolding list_tools mcp_manifest
list_tools-new_registry cs n =
    let listed = register-Distinct [] cs (All-Absent-empty cs) n in
    (listed, ap length listed, ap (map mcp_tool) listed)
