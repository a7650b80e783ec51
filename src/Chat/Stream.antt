-- ===== src/Chat/Stream.antt =====
-- The loop of src/app/agent/useAgentChat.tsx that reads the answer: pieces of the body come in
-- as the network cuts them, and each block that is complete is one event.
pub mod Laws
use clock.AgentEvents.{AgentEvent, split_blocks}
use clock.Base.{List, Option, [], drop, if◌then◌else◌, is_empty, none, some, ◌++◌, ◌∷◌}
use clock.Text.{Text, codes, starts_with, trim}

-- `lines.pop()`: the lines before the last one, and the last one
unfoldable pub pop : List Text → List Text × Text
pop [] = ([], [])
pop (x ∷ xs) = let (before, last) = pop xs in if is_empty xs then ([], x) else (x ∷ before, last)

-- `line.replace(/^data: /, "").trim()`
unfoldable pub line_data : Text → Text
unfolding starts_with trim
line_data line = trim (if starts_with (codes "data: ") line then drop 6 line else line)

-- The events of complete blocks: an empty one and one that does not parse are skipped.
unfoldable pub line_events : (Text → Option AgentEvent) → List Text → List AgentEvent
unfolding line_data
line_events parse [] = []
line_events parse (l ∷ ls) =
    let rest = line_events parse ls in
    if is_empty (line_data l)
    then rest
    else elim (parse (line_data l)) [ none ↦ rest | some ev ↦ ev ∷ rest ]

-- One round of the loop: the events of a piece, and what is kept for the next one
unfoldable pub read_chunk : (Text → Option AgentEvent) → Text → Text → List AgentEvent × Text
unfolding split_blocks pop line_events
read_chunk parse buf chunk =
    let (lines, rest) = pop (split_blocks [] (buf ++ chunk)) in (line_events parse lines, rest)

-- All rounds, with the text that is kept
unfoldable pub read_chunks : (Text → Option AgentEvent) → Text → List Text → List AgentEvent × Text
unfolding read_chunk
read_chunks parse buf [] = ([], buf)
read_chunks parse buf (c ∷ cs) =
    let (evs, buf') = read_chunk parse buf c in
    let (more, buf'') = read_chunks parse buf' cs in (evs ++ more, buf'')
