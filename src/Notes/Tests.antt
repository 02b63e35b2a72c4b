-- ===== src/Notes/Tests.antt =====
-- Notes that are parsed, merged and forgotten.
use noah_code.Prelude.{◌≤◌, true, [], ◌∷◌, ◌≡◌, refl, All, length}
use noah_code.Python.Text.{Text, codes, texts}
use noah_code.Notes.{parse_memory_facts, parse_distilled_memories, merge, forget}
use noah_code.Notes.Facts.{IsFact, parse_memory_facts-IsFact}

abbrev raw : Text
raw = codes "- use tabs\n* the Password is x\nEMPTY\n\n- run make\n"

drops_secrets : parse_memory_facts raw ≡ texts ("use tabs" ∷ "run make" ∷ [])
unfolding parse_memory_facts
drops_secrets = refl

takes_tagged :
    parse_distilled_memories (codes "- hello\n- memory: use tabs") ≡ texts ("use tabs" ∷ [])
unfolding parse_distilled_memories
takes_tagged = refl

merges_new :
    merge (codes "- Use tabs\n") (texts ("use tabs" ∷ "run make" ∷ []))
    ≡ (codes "- Use tabs\n- run make\n", texts ("run make" ∷ []))
unfolding merge
merges_new = refl

forgets_one :
    forget (codes "- Use tabs\n- run make\n") (codes "TABS") ≡ (codes "- run make\n", true)
unfolding forget
forgets_one = refl

parse_memory_facts-IsFact_example :
    All IsFact (parse_memory_facts raw) × (length (parse_memory_facts raw) ≤ 8)
parse_memory_facts-IsFact_example = parse_memory_facts-IsFact raw
