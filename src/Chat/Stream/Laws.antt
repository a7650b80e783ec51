-- ===== src/Chat/Stream/Laws.antt =====
-- The events of an answer do not depend on how the network cuts it.
use clock.AgentEvents.{AgentEvent, split_blocks}
use clock.Base.{
  Bool, Bool-cases, List, Option, [], ap, arith, false, inl, inr, is_empty, refl, sym, true, ℕ,
  ◌&&◌, ◌++◌, ◌==◌, ◌∙◌, ◌∷◌, ◌≡◌,
}
use clock.Chat.Stream.{line_events, pop, read_chunk, read_chunks}
use clock.Listings.{cut}
use clock.Text.{Text}

is_empty-split_blocks : (b s : Text) → is_empty (split_blocks b s) ≡ false
unfolding split_blocks
is_empty-split_blocks b [] = refl
is_empty-split_blocks b (c ∷ []) = refl
is_empty-split_blocks b (c ∷ d ∷ s) = ground (arith, is_empty-split_blocks (b ++ (c ∷ [])) (d ∷ s))

pop_cons :
    (x : Text) (xs : List Text) → is_empty xs ≡ false → pop (x ∷ xs) ≡ (x ∷ (pop xs).0, (pop xs).1)
unfolding pop
pop_cons x xs h = rw h refl

pub append_assoc : {A : Type 0} (a b c : List A) → (a ++ b) ++ c ≡ a ++ (b ++ c)
append_assoc [] b c = refl
append_assoc (x ∷ a) b c = cc (append_assoc a b c)

-- What another piece of text adds to blocks that were split
abbrev add_text : List Text × Text → Text → List Text × Text
add_text (lines, rest) t =
    let (more, rest') = pop (split_blocks [] (rest ++ t)) in (lines ++ more, rest')

add_text_cons :
    (x : Text) (xs : List Text) (t : Text)
    → is_empty xs ≡ false
    → add_text (pop (x ∷ xs)) t ≡ (x ∷ (add_text (pop xs) t).0, (add_text (pop xs) t).1)
add_text_cons x xs t h = rw (pop_cons x xs h) refl

-- A block that was begun is the block that a scan from its start finds open.
abbrev IsOpen : Text → ℕ → Type 0
IsOpen b c = (u : Text) → split_blocks [] (b ++ (c ∷ u)) ≡ split_blocks b (c ∷ u)

abbrev ends_block : ℕ → ℕ → Bool
ends_block c d = c == b'\n' && d == b'\n'

split_blocks-cut :
    (b : Text) (c d : ℕ) (s : Text)
    → ends_block c d ≡ true
    → split_blocks b (c ∷ d ∷ s) ≡ b ∷ split_blocks [] s
unfolding split_blocks
split_blocks-cut b c d s h = rw h refl

split_blocks-on :
    (b : Text) (c d : ℕ) (s : Text)
    → ends_block c d ≡ false
    → split_blocks b (c ∷ d ∷ s) ≡ split_blocks (b ++ (c ∷ [])) (d ∷ s)
unfolding split_blocks
split_blocks-on b c d s h = rw h refl

split_blocks-one : (b : Text) (c : ℕ) → split_blocks b (c ∷ []) ≡ (b ++ (c ∷ [])) ∷ []
unfolding split_blocks
split_blocks-one b c = refl

nil-IsOpen : (c : ℕ) → IsOpen [] c
nil-IsOpen c u = refl

IsOpen-on : (b : Text) (c d : ℕ) → IsOpen b c → ends_block c d ≡ false → IsOpen (b ++ (c ∷ [])) d
IsOpen-on b c d opens h u =
    ap (split_blocks []) (append_assoc b (c ∷ []) (d ∷ u))
    ∙ opens (d ∷ u)
    ∙ split_blocks-on b c d u h

cut_step :
    (b : Text) (c d : ℕ) (s t : Text)
    → ends_block c d ≡ true
    → pop (split_blocks [] (s ++ t)) ≡ add_text (pop (split_blocks [] s)) t
    → pop (split_blocks b (c ∷ d ∷ (s ++ t))) ≡ add_text (pop (split_blocks b (c ∷ d ∷ s))) t
cut_step b c d s t cut ih =
    rw (split_blocks-cut b c d (s ++ t) cut, split_blocks-cut b c d s cut)
      (pop_cons b (split_blocks [] (s ++ t)) (is_empty-split_blocks [] (s ++ t))
        ∙ rw ih (sym (add_text_cons b (split_blocks [] s) t (is_empty-split_blocks [] s))))

on_step :
    (b : Text) (c d : ℕ) (s t : Text)
    → ends_block c d ≡ false
    → pop (split_blocks (b ++ (c ∷ [])) (d ∷ (s ++ t)))
      ≡ add_text (pop (split_blocks (b ++ (c ∷ [])) (d ∷ s))) t
    → pop (split_blocks b (c ∷ d ∷ (s ++ t))) ≡ add_text (pop (split_blocks b (c ∷ d ∷ s))) t
on_step b c d s t on ih = rw (split_blocks-on b c d (s ++ t) on, split_blocks-on b c d s on) ih

one_step :
    (b : Text) (c : ℕ) (t : Text)
    → IsOpen b c
    → pop (split_blocks b (c ∷ t)) ≡ add_text (pop (split_blocks b (c ∷ []))) t
unfolding pop
one_step b c t opens = rw (split_blocks-one b c, append_assoc b (c ∷ []) t, opens t) refl

nil_step : (t : Text) → pop (split_blocks [] t) ≡ add_text (pop (split_blocks [] [])) t
unfolding pop split_blocks
nil_step t = refl

-- A text that is split as a whole, and one that is split as soon as its first part is there
pop-split_blocks :
    (b : Text) (c : ℕ) (s t : Text)
    → IsOpen b c
    → pop (split_blocks b (c ∷ (s ++ t))) ≡ add_text (pop (split_blocks b (c ∷ s))) t
pop-split_blocks b c [] t opens = one_step b c t opens
pop-split_blocks b c (d ∷ []) t opens = elim (Bool-cases (ends_block c d)) [
  | inl cut ↦ cut_step b c d [] t cut (nil_step t)
  | inr on ↦
      on_step b c d [] t on (pop-split_blocks (b ++ (c ∷ [])) d [] t (IsOpen-on b c d opens on))
]
pop-split_blocks b c (d ∷ e ∷ s) t opens = elim (Bool-cases (ends_block c d)) [
  | inl cut ↦ cut_step b c d (e ∷ s) t cut (pop-split_blocks [] e s t (λ u. nil-IsOpen e u))
  | inr on ↦
      on_step b c d (e ∷ s) t on
        (pop-split_blocks (b ++ (c ∷ [])) d (e ∷ s) t (IsOpen-on b c d opens on))
]

split_rest : (s t : Text) → pop (split_blocks [] (s ++ t)) ≡ add_text (pop (split_blocks [] s)) t
split_rest [] t = nil_step t
split_rest (c ∷ s) t = pop-split_blocks [] c s t (λ u. nil-IsOpen c u)

line_events-append :
    (parse : Text → Option AgentEvent) (xs ys : List Text)
    → line_events parse (xs ++ ys) ≡ line_events parse xs ++ line_events parse ys
unfolding line_events
line_events-append parse [] ys = refl
line_events-append parse (x ∷ xs) ys = ground (arith, line_events-append parse xs ys)

abbrev pub joined : List Text → Text
joined [] = []
joined (c ∷ cs) = c ++ joined cs

abbrev complete : Text → List Text
complete s = (pop (split_blocks [] s)).0

abbrev begun : Text → Text
begun s = (pop (split_blocks [] s)).1

append_nil : {A : Type 0} (a : List A) → a ++ [] ≡ a
append_nil [] = refl
append_nil (x ∷ a) = cc (append_nil a)

complete-append : (s t : Text) → complete (s ++ t) ≡ complete s ++ complete (begun s ++ t)
complete-append s t = ap (λ (p : List Text × Text). p.0) (split_rest s t)

begun-append : (s t : Text) → begun (s ++ t) ≡ begun (begun s ++ t)
begun-append s t = ap (λ (p : List Text × Text). p.1) (split_rest s t)

-- The text `s` was read before.
read_chunks-after :
    (parse : Text → Option AgentEvent) (s : Text) (cs : List Text)
    → (line_events parse (complete (s ++ joined cs))
        ≡ line_events parse (complete s) ++ (read_chunks parse (begun s) cs).0)
      × (begun (s ++ joined cs) ≡ (read_chunks parse (begun s) cs).1)
unfolding read_chunks read_chunk
read_chunks-after parse s [] =
    (rw (append_nil s) (sym (append_nil (line_events parse (complete s)))), rw (append_nil s) refl)
read_chunks-after parse s (c ∷ cs) =
    let (evs, kept) = read_chunks-after parse (s ++ c) cs in
    let more = line_events parse (complete (begun s ++ c)) in
    let start : line_events parse (complete (s ++ c)) ≡ line_events parse (complete s) ++ more =
      ap (line_events parse) (complete-append s c)
      ∙ line_events-append parse (complete s) (complete (begun s ++ c)) in
    let then_read = λ (t : Text). (read_chunks parse t cs).0 in
    (
      ap (λ (t : Text). line_events parse (complete t)) (sym (append_assoc s c (joined cs)))
          ∙ evs
          ∙ ap (λ (x : List AgentEvent). x ++ then_read (begun (s ++ c))) start
          ∙ append_assoc (line_events parse (complete s)) more (then_read (begun (s ++ c)))
          ∙ ap (λ (t : Text). line_events parse (complete s) ++ (more ++ then_read t))
              (begun-append s c),
      ap begun (sym (append_assoc s c (joined cs)))
          ∙ kept
          ∙ ap (λ (t : Text). (read_chunks parse t cs).1) (begun-append s c),
    )

-- However the body is cut into pieces, the page reads the events of its complete blocks and keeps
-- the block that is begun, as if the body had come in one piece.
pub read_chunks-joined :
    (parse : Text → Option AgentEvent) (cs : List Text)
    → read_chunks parse [] cs ≡ read_chunk parse [] (joined cs)
unfolding read_chunk split_blocks pop line_events
read_chunks-joined parse cs = let (evs, kept) = read_chunks-after parse [] cs in cc (evs, kept)
